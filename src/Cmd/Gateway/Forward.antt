-- ===== src/Cmd/Gateway/Forward.antt =====
-- The way of a reading from the gateway to the databases.
use distributed_systems_go.Base.{
  ℕ, ◌^◌, ◌≤◌, ◌<◌, ◌≡◌, sym, ap, ap₂, ◌∙◌, false, ◌∷◌, ◌++◌, map, List, length, Text, text,
  is_empty, Result, ok,
}
use distributed_systems_go.Base.Int.{ℤ}
use distributed_systems_go.Types.{SensorData}
use distributed_systems_go.Rpc.{TimestampPb, KeepsTime}
use distributed_systems_go.Database.Service.{Service, add_data_point_internal}
use distributed_systems_go.Database.Coordinator.{generate_transaction_id}
use distributed_systems_go.Database.Coordinator.Commit.{Undisturbed, Answered, IsNew}
use distributed_systems_go.Http.Message.{Request, Response, plain_response}
use distributed_systems_go.Http.Server.{handle_connection}
use distributed_systems_go.Http.Client.Fields.{IsValue}
use distributed_systems_go.Http.Url.{IsHost}
use distributed_systems_go.Http.Exchange.{Link, post_json}
use distributed_systems_go.Http.Exchange.Loop.{
  Host, IsSound, IsSendable, IsSameAnswer, link_to, url_of, posted, post_json-answer,
}
use distributed_systems_go.Cmd.Json.{Json}
use distributed_systems_go.Cmd.Server.{World, stamp, stored_response, post_data}
use distributed_systems_go.Cmd.Server.Data.{post-stored, post_data-ok}
use distributed_systems_go.Cmd.Server.Routes.{the_server, routes}
use distributed_systems_go.Cmd.Gateway.Answer.{
  check_answer-ok, check_answer-same, server_url, url_of-server_url, data-IsPath,
  post_data-IsSendable,
}
use distributed_systems_go.Cmd.Gateway.{check_answer, forward_data}

pub forward_data-sent :
    {S : Type 0} (json : Json) (link : Link S) (base url : Text) (d : SensorData) (body : Text)
    (st : S)
    → json.marshal_reading d ≡ ok body
    → base ++ text "/data" ≡ url
    → forward_data json link base d st
      ≡ ((post_json link url body st).0, check_answer (post_json link url body st).1)
unfolding forward_data
forward_data-sent json link base url d body st coded same =
    rw (coded, forward_data)
      (ap (λ u. ((post_json link u body st).0, check_answer (post_json link u body st).1)) same)

ok-injective : (a b : SensorData) → ok a ≡ ok b → a ≡ b
ok-injective a b e = cc

module _ (pb : TimestampPb) (json : Json) (page address : Text) (listen : ℤ)
    (w : World pb.Timestamp) (h : Host) where
  -- the network between the gateway and the server of cmd/server
  abbrev pub to_server : Link (List Service)
  to_server = link_to h (the_server pb json page address listen w)

-- A reading whose JSON the gateway can send to the server, the server can hold, and reads back.
abbrev pub IsForwardable : Json → ℕ → Text → ℕ → SensorData → Text → Type 0
IsForwardable json memory host port d body =
    (IsHost host × IsValue host × (port < 2 ^ 63))
    × (json.marshal_reading d ≡ ok body)
    × (json.unmarshal_reading body ≡ ok d)
    × ((0 < length body) × (length body < 2 ^ 63) × (length body ≤ memory))

module _ (pb : TimestampPb) (keeps : KeepsTime pb) (json : Json) (page address : Text) (listen : ℤ)
    (w : World pb.Timestamp) (h : Host) where
  open json use {marshal_reading, unmarshal_reading}

  handler :
      (host body : Text) (nodes : List Service)
      → handle_connection
          (the_server pb json page address listen w)
          (ok (posted host (b'/' ∷ text "data") body))
          nodes
        ≡ post_data pb json w (posted host (b'/' ∷ text "data") body) nodes
  unfolding text
  handler host body nodes =
      (routes pb json page address listen w (posted host (b'/' ∷ text "data") body) nodes).0

  -- What a forward comes to: one `POST /data` at the server, and the check of its answer.
  forward_data-post :
      (host : Text) (port : ℕ) (d : SensorData) (body : Text) (nodes : List Service)
      → IsSound h
      → IsForwardable json h.memory host port d body
      → let posting = post_data pb json w (posted host (b'/' ∷ text "data") body) nodes in
        let forward =
          forward_data json
            (to_server pb json page address listen w h)
            (server_url host port)
            d
            nodes in
        (res : Result Response) × (forward ≡ (posting.0, check_answer res))
        × IsSameAnswer posting.1 res
  forward_data-post host port d body nodes sound
        ((hh, hv, small), coded, read, (full, fits, room)) =
      let server = the_server pb json page address listen w in
      let req : Request = posted host (b'/' ∷ text "data") body in
      let url : Text = url_of host port (text "data") in
      let handled : handle_connection server (ok req) nodes ≡ post_data pb json w req nodes =
        handler host body nodes in
      let sendable : IsSendable (handle_connection server (ok req) nodes).1 =
        rw handled (post_data-IsSendable pb json w req nodes) in
      let answer =
        post_json-answer h server host (text "data") body port nodes sound hh hv data-IsPath small
          full fits room sendable in
      let res : Result Response =
        (post_json (to_server pb json page address listen w h) url body nodes).1 in
      (
        res,
        forward_data-sent json (to_server pb json page address listen w h) (server_url host port)
              url d body nodes coded (url_of-server_url host port)
            ∙ ap (λ st. (st, check_answer res))
                (answer.0 ∙ ap (λ (x : List Service × Response). x.0) handled),
        rw (← handled) answer.1,
      )

  -- If the URL's host is plain and its port fits an int, the reading's JSON is read back as the
  -- same reading and fits into the server's memory, and the server's answers arrive as written,
  -- then a forward that returns no error, while nobody interferes at the databases, has stored the
  -- reading exactly once in every database, with the current time if it had none, whatever calls
  -- got lost between the server and the databases.
  pub forward_data-stored :
      (host : Text) (port : ℕ) (d : SensorData) (body : Text) (nodes : List Service)
      → IsSound h
      → IsForwardable json h.memory host port d body
      → Undisturbed w.trial.plan.prepares
      → Undisturbed w.trial.plan.commits
      → (forward_data json
          (to_server pb json page address listen w h)
          (server_url host port)
          d
          nodes).1
        ≡ ok tt
      → (forward_data json
          (to_server pb json page address listen w h)
          (server_url host port)
          d
          nodes).0
        ≡ map (add_data_point_internal (stamp w.now d)) nodes
  forward_data-stored host port d body nodes sound able alone_p alone_c good =
      let (res, e, same) = forward_data-post host port d body nodes sound able in
      let accepted : check_answer res ≡ ok tt =
        sym (ap (λ (x : List Service × Result (Unit {0})). x.1) e) ∙ good in
      let (d', read, named, stored) =
        post-stored pb keeps json w (posted host (b'/' ∷ text "data") body) nodes alone_p alone_c (
          check_answer-ok (post_data pb json w (posted host (b'/' ∷ text "data") body) nodes).1 res
            same accepted) in
      let same_reading : d' ≡ d = ok-injective d' d (sym read ∙ able.2) in
      ap (λ (x : List Service × Result (Unit {0})). x.0) e
      ∙ (stored
          ∙ ap (λ (x : SensorData). map (add_data_point_internal (stamp w.now x)) nodes)
              same_reading)

  -- If the URL's host is plain and its port fits an int, the reading's JSON is read back as the
  -- same reading and fits into the server's memory, and the server's answers arrive as written,
  -- every call between the server and the databases is answered, nobody interferes there and no
  -- database holds the new transaction id, then the forward of a reading with a sensor id returns
  -- no error, and every database has stored it exactly once, with the current time if it had none.
  pub forward_data-ok :
      (host : Text) (port : ℕ) (d : SensorData) (body : Text) (nodes : List Service)
      → IsSound h
      → IsForwardable json h.memory host port d body
      → Undisturbed w.trial.plan.prepares
      → Undisturbed w.trial.plan.commits
      → Answered w.trial.plan.prepares
      → Answered w.trial.plan.commits
      → is_empty d.sensor_id ≡ false
      → IsNew (generate_transaction_id w.trial.random w.trial.unix_nano) nodes
      → forward_data json (to_server pb json page address listen w h) (server_url host port) d nodes
        ≡ (map (add_data_point_internal (stamp w.now d)) nodes, ok tt)
  unfolding stored_response plain_response
  forward_data-ok host port d body nodes sound able alone_p alone_c ans_p ans_c named fresh =
      let (res, e, same) = forward_data-post host port d body nodes sound able in
      let posted_ok =
        post_data-ok pb keeps json w (posted host (b'/' ∷ text "data") body) d nodes alone_p alone_c
          ans_p ans_c able.2 named fresh in
      let accepted : check_answer res ≡ ok tt =
        check_answer-same (post_data pb json w (posted host (b'/' ∷ text "data") body) nodes).1 res
          same (ap (λ (x : List Service × Response). x.1.status_code) posted_ok) in
      e
      ∙ ap₂ (λ (st : List Service) r. (st, r)) (ap (λ (x : List Service × Response). x.0) posted_ok)
          accepted
