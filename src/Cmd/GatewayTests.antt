-- ===== src/Cmd/GatewayTests.antt =====
-- The gateway at a server over two databases.
use distributed_systems_go.Base.{ℕ, ◌+◌, ◌≡◌, refl, ap, [], ◌∷◌, map, List, arith, text, ok, Result}
use distributed_systems_go.Base.Int.{pos}
use distributed_systems_go.Base.Table.{lookup}
use distributed_systems_go.Database.Service.{Service, add_data_point_internal}
use distributed_systems_go.Database.Fixtures.{instants, instants-KeepsTime, reading}
use distributed_systems_go.Http.Fixtures.{host, host-IsSound}
use distributed_systems_go.Http.Exchange.{Link, not_read, get}
use distributed_systems_go.Http.Message.{status_ok, create_json_response}
use distributed_systems_go.Http.Exchange.Loop.{link_to, url_of, IsSameAnswer}
use distributed_systems_go.Cmd.Store32.{DataStore, store_data_point}
use distributed_systems_go.Cmd.Store32.Wire.{the_store, get-forward_data}
use distributed_systems_go.Cmd.Server.{stamp}
use distributed_systems_go.Cmd.Fixtures.{codec, good_world, servers}
use distributed_systems_go.Cmd.Gateway.{
  Gateway, gateway_factory, arrives, forwards, run, forward_data,
}
use distributed_systems_go.Cmd.Gateway.Answer.{server_url}
use distributed_systems_go.Cmd.Gateway.Count.{Counts, run-Counts}
use distributed_systems_go.Cmd.Gateway.Forward.{
  IsForwardable, to_server, forward_data-stored, forward_data-ok,
}

able : IsForwardable codec 1000 (text "localhost") 8080 (reading 3 9) (3 ∷ [])
unfolding text
able =
    ((ground arith, ground arith, omega arith), refl, refl, (omega arith, omega arith, omega arith))

forward_data-ok_example :
    forward_data codec
      (to_server instants codec [] [] (pos 8080) good_world host)
      (server_url (text "localhost") 8080)
      (reading 3 9)
      servers
    ≡ (map (add_data_point_internal (stamp 100 (reading 3 9))) servers, ok tt)
unfolding lookup
forward_data-ok_example =
    forward_data-ok instants instants-KeepsTime codec [] [] (pos 8080) good_world host
      (text "localhost") 8080 (reading 3 9) (3 ∷ []) servers host-IsSound able (λ i. refl)
      (λ i. refl) (λ i. refl) (λ i. refl) refl (refl, (refl, tt))

forward_data-stored_example :
    (forward_data codec
      (to_server instants codec [] [] (pos 8080) good_world host)
      (server_url (text "localhost") 8080)
      (reading 3 9)
      servers).0
    ≡ map (add_data_point_internal (stamp 100 (reading 3 9))) servers
unfolding lookup
forward_data-stored_example =
    forward_data-stored instants instants-KeepsTime codec [] [] (pos 8080) good_world host
      (text "localhost") 8080 (reading 3 9) (3 ∷ []) servers host-IsSound able (λ i. refl)
      (λ i. refl)
      (ap (λ (r : List Service × Result (Unit {0})). r.1)
        (forward_data-ok instants instants-KeepsTime codec [] [] (pos 8080) good_world host
          (text "localhost") 8080 (reading 3 9) (3 ∷ []) servers host-IsSound able (λ i. refl)
          (λ i. refl) (λ i. refl) (λ i. refl) refl (refl, (refl, tt))))

-- a network that loses every answer
abbrev lossy : Link ℕ
lossy = record {
  dial = λ address. ok tt;
  set_deadline = ok tt;
  deliver = λ bytes n. (n + 1, not_read (text "time-out"));
}

abbrev two_going : Gateway
two_going = record (gateway_factory (text "http://a:1") (text "b:2")) {
  forwarding = reading 1 5 ∷ reading 2 6 ∷ [];
}

run-Counts_example :
    Counts codec
      (arrives (3 ∷ []) ∷ forwards 1 lossy ∷ [])
      two_going
      (run codec (arrives (3 ∷ []) ∷ forwards 1 lossy ∷ []) two_going 0)
run-Counts_example = run-Counts codec (arrives (3 ∷ []) ∷ forwards 1 lossy ∷ []) two_going 0

abbrev store : DataStore
store = record { points = reading 1 5 ∷ []; limit = 2 }

get-forward_data_example :
    let (ds', r) =
      forward_data codec
        (link_to host (the_store codec [] [] (pos 8080) 100))
        (server_url (text "localhost") 8080)
        (reading 3 9)
        store in
    let (ds'', answer) =
      get
        (link_to host (the_store codec [] [] (pos 8080) 200))
        (url_of (text "localhost") 8080 (text "data"))
        ds' in
    (ds' ≡ store_data_point (stamp 100 (reading 3 9)) store)
    × (r ≡ ok tt)
    × (ds'' ≡ ds')
    × IsSameAnswer (create_json_response status_ok (42 ∷ 42 ∷ [])) answer
unfolding store_data_point stamp
get-forward_data_example =
    get-forward_data codec [] [] (pos 8080) host host-IsSound (text "localhost") 8080 100 200
      (reading 3 9) (3 ∷ []) (42 ∷ 42 ∷ []) store able refl refl
