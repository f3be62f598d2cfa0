-- ===== src/Cmd/Tests.antt =====
-- Requests at the programs.
use distributed_systems_go.Base.{
  length, All, ◌≤◌, ◌/◌, arith, ◌≡◌, refl, List, [], ◌∷◌, ◌++◌, map, false, Text, text, is_empty,
  ok,
}
use distributed_systems_go.Base.Int.{pos}
use distributed_systems_go.Base.Table.{lookup}
use distributed_systems_go.Types.{SensorData}
use distributed_systems_go.Database.Service.{Service, trim, add_data_point_internal}
use distributed_systems_go.Database.Fixtures.{
  instants, instants-KeepsTime, reading, server, full_server,
}
use distributed_systems_go.Http.Message.{Request, Response, status_ok, status_not_found}
use distributed_systems_go.Http.Client.Fields.{IsValue}
use distributed_systems_go.Http.Server.{handle_connection}
use distributed_systems_go.Cmd.Server.{
  run_two_phase_commit_performance_test, post_data, get_data, json_response, stamp,
}
use distributed_systems_go.Cmd.Server.Data.{post-stored, post-get}
use distributed_systems_go.Cmd.Server.Routes.{request_for, the_server, sensor_not_found}
use distributed_systems_go.Cmd.Server.Performance.{
  least, greatest, sum, measurements, run_two_phase_commit_performance_test-bounds,
}
use distributed_systems_go.Cmd.Store32.Handlers.{post_store, IsSame, post_store-post_data}
use distributed_systems_go.Cmd.Fixtures.{codec, good_world, servers}
use distributed_systems_go.Cmd.Store32.{DataStore}

abbrev request_to : Text → Text → Text → Request
request_to method path body = record {
  method = method;
  path = path;
  version = text "HTTP/1.1";
  headers = [];
  body = body;
  content_type = [];
  content_len = pos 0;
}

abbrev post : Text → Request
post body = request_to (text "POST") (text "/data") body

abbrev get : Text → Request
get path = request_to (text "GET") path []

post-get_example :
    ((post_data instants codec good_world (post (3 ∷ [])) servers).1.status_code ≡ status_ok)
    × ((get_data instants codec good_world
          (get (text "/data"))
          (post_data instants codec good_world (post (3 ∷ [])) servers).0).1
        ≡ json_response codec
            (codec.marshal_readings (trim 2 (server.points ++ stamp 100 (reading 3 9) ∷ []))))
unfolding lookup
post-get_example =
    post-get instants instants-KeepsTime codec good_world (post (3 ∷ [])) (get (text "/data"))
      (reading 3 9) server (full_server ∷ []) (λ i. refl) (λ i. refl) (λ i. refl) (λ i. refl) refl
      refl refl (refl, (refl, tt))

good_post : (post_data instants codec good_world (post (3 ∷ [])) servers).1.status_code ≡ status_ok
unfolding lookup
good_post =
    (post-get instants instants-KeepsTime codec good_world (post (3 ∷ [])) (get (text "/data"))
      (reading 3 9) server (full_server ∷ []) (λ i. refl) (λ i. refl) (λ i. refl) (λ i. refl) refl
      refl refl (refl, (refl, tt))).0

post-stored_example :
    (d : SensorData) × (codec.unmarshal_reading (3 ∷ []) ≡ ok d)
    × (is_empty d.sensor_id ≡ false)
    × ((post_data instants codec good_world (post (3 ∷ [])) servers).0
        ≡ map (add_data_point_internal (stamp 100 d)) servers)
post-stored_example =
    post-stored instants instants-KeepsTime codec good_world (post (3 ∷ [])) servers (λ i. refl)
      (λ i. refl) good_post

abbrev good_server_at : Text → Text → List Service × Response
good_server_at method path =
    handle_connection (the_server instants codec [] [] (pos 8080) good_world)
      (ok (request_for method path (post []))) servers

abbrev at : Text → Text → Request
at method path = request_for method path (post [])

sensor_not_found_example :
    ((handle_connection
        (the_server instants codec [] [] (pos 8080) good_world)
        (ok (get (text "/data/" ++ 1 ∷ [])))
        servers).0
      ≡ servers)
    × ((handle_connection
          (the_server instants codec [] [] (pos 8080) good_world)
          (ok (get (text "/data/" ++ 1 ∷ [])))
          servers).1.status_code
        ≡ status_not_found)
sensor_not_found_example =
    sensor_not_found instants codec [] [] (pos 8080) good_world (get (text "/data/" ++ 1 ∷ []))
      (1 ∷ []) servers refl refl (λ e. cc)

abbrev small_store : DataStore
small_store = record { points = []; limit = 2 }

abbrev small_server : Service
small_server = record server { points = [] }

abbrev three : List SensorData
three = reading 1 5 ∷ reading 2 6 ∷ reading 1 7 ∷ []

local-IsValue : IsValue (text "localhost")
unfolding text
local-IsValue = ground arith

-- a store that holds what the first database holds
abbrev same_store : DataStore
same_store = record { points = server.points; limit = 2 }

post_store-post_data_example :
    let (ds', answer) = post_store codec 100 (post (3 ∷ [])) same_store in
    let (nodes', answer') =
      post_data instants codec good_world (post (3 ∷ [])) (server ∷ server ∷ []) in
    (answer.status_code ≡ answer'.status_code) × All (IsSame ds') nodes'
unfolding lookup
post_store-post_data_example =
    post_store-post_data instants instants-KeepsTime codec good_world (post (3 ∷ [])) same_store
      (server ∷ server ∷ []) ((refl, refl), ((refl, refl), tt)) (λ i. refl) (λ i. refl) (λ i. refl)
      (λ i. refl) (refl, (refl, tt))

run_two_phase_commit_performance_test-bounds_example :
    let ms = measurements instants 2 0 good_world servers in
    let (nodes', low, high, mean) =
      run_two_phase_commit_performance_test instants 2 good_world servers in
    (length ms ≤ 2) × (low ≡ least ms) × (high ≡ greatest ms) × (mean ≡ sum ms / 2) × (mean ≤ high)
run_two_phase_commit_performance_test-bounds_example =
    run_two_phase_commit_performance_test-bounds instants 2 good_world servers (omega arith)
