-- ===== src/Cmd/Store32/Handlers.antt =====
-- cmd/server_32/main.go, `registerHandlers`: the handlers of the single-server program. Their
-- state is the store; the responses to readings are those of cmd/server.
use distributed_systems_go.Base.{
  ◌≡◌, refl, false, map, All, Bool-cases, Result-cases, inl, inr, List, [], ◌∷◌, ◌++◌,
  if◌then◌else◌, drop, Text, text, eq_text, is_empty, Result, ok, err,
}
use distributed_systems_go.Types.{Time, SensorData}
use distributed_systems_go.Rpc.{TimestampPb, KeepsTime}
use distributed_systems_go.Database.Service.{Service, add_data_point_internal}
use distributed_systems_go.Database.Coordinator.{generate_transaction_id}
use distributed_systems_go.Database.Coordinator.Commit.{Undisturbed, Answered, IsNew}
use distributed_systems_go.Http.Message.{
  Request, Response, status_ok, status_bad_request, plain_response, create_html_response,
}
use distributed_systems_go.Http.Server.{RequestHandler, Server, register_handler}
use distributed_systems_go.Cmd.Json.{Json}
use distributed_systems_go.Cmd.Server.{
  World, stamp, post_data, post_reading, stored_response, json_response, sensor_response,
}
use distributed_systems_go.Cmd.Server.Data.{post_data-ok}
use distributed_systems_go.Cmd.Store32.{
  DataStore, store_data_point, stored_points, points_by_sensor_id, store_data_point-points,
}

module _ (json : Json) where
  open json use {unmarshal_reading, marshal_readings}

  -- `POST /data` on the decoded body
  unfoldable pub store_reading : Time → Result SensorData → DataStore → DataStore × Response
  store_reading now (err e) ds =
      (ds, plain_response status_bad_request (text "Invalid JSON: " ++ e))
  store_reading now (ok d) ds =
      if is_empty d.sensor_id
      then (ds, plain_response status_bad_request (text "Missing sensorId"))
      else (
        store_data_point (stamp now d) ds,
        plain_response status_ok (text "Data stored successfully"),
      )

  unfoldable pub post_store : Time → RequestHandler DataStore
  post_store now req ds = store_reading now (unmarshal_reading req.body) ds

  -- `GET /data`
  unfoldable pub get_store : RequestHandler DataStore
  get_store req ds = (ds, json_response json (marshal_readings (stored_points ds)))

  -- `GET /data/*`
  unfoldable pub get_store_sensor : RequestHandler DataStore
  get_store_sensor req ds =
      if eq_text req.path (text "/data/")
      then (ds, plain_response status_bad_request (text "Missing sensor ID"))
      else let id = drop 6 req.path in
        (ds, sensor_response json id (ok (points_by_sensor_id id ds)))

  -- `GET /`, which answers with a fixed page
  unfoldable pub get_store_root : Text → RequestHandler DataStore
  get_store_root page req ds = (ds, create_html_response status_ok page)

  -- `registerHandlers`, for a request that comes at the time `now`
  unfoldable pub register_store_handlers : Text → Time → Server DataStore → Server DataStore
  register_store_handlers page now s =
      register_handler (text "GET") (text "/") (get_store_root page) (
        register_handler (text "GET") (text "/data/*") get_store_sensor (
          register_handler (text "GET") (text "/data") get_store
            (register_handler (text "POST") (text "/data") (post_store now) s)))

  pub post_store-ok :
      (now : Time) (req : Request) (d : SensorData) (ds : DataStore)
      → unmarshal_reading req.body ≡ ok d
      → is_empty d.sensor_id ≡ false
      → post_store now req ds ≡ (
        store_data_point (stamp now d) ds,
        plain_response status_ok (text "Data stored successfully"),
      )
  unfolding post_store store_reading
  post_store-ok now req d ds body named = rw (body, named)

-- The database holds the readings of the store, under the store's limit.
abbrev pub IsSame : DataStore → Service → Type 0
IsSame ds s = (ds.points ≡ s.points) × (ds.limit ≡ s.max_data_points)

store_data_point-IsSame :
    (d : SensorData) (ds : DataStore) (nodes : List Service)
    → All (IsSame ds) nodes
    → All (IsSame (store_data_point d ds)) (map (add_data_point_internal d) nodes)
unfolding store_data_point add_data_point_internal
store_data_point-IsSame d ds [] all = tt
store_data_point-IsSame d ds (s ∷ ss) all = (
  (store_data_point-points d ds s all.0.0 all.0.1, all.0.1),
  store_data_point-IsSame d ds ss all.1,
)

-- A `POST /data` to the single-server program and one to the program over the databases with the same
-- body, at the same time, answer with the same status, whatever the body is, and if every database
-- held the store's readings under its limit before, then every database does so after, if every
-- call of the transaction is answered, nobody interferes and no database holds the new
-- transaction id. Readings are compared with their times as instants.
pub post_store-post_data :
    (pb : TimestampPb) (keeps : KeepsTime pb) (json : Json) (w : World pb.Timestamp) (req : Request)
    (ds : DataStore) (nodes : List Service)
    → All (IsSame ds) nodes
    → Undisturbed w.trial.plan.prepares
    → Undisturbed w.trial.plan.commits
    → Answered w.trial.plan.prepares
    → Answered w.trial.plan.commits
    → IsNew (generate_transaction_id w.trial.random w.trial.unix_nano) nodes
    → let (ds', answer) = post_store json w.now req ds in
      let (nodes', answer') = post_data pb json w req nodes in
      (answer.status_code ≡ answer'.status_code) × All (IsSame ds') nodes'
unfolding post_store store_reading post_data post_reading plain_response stored_response
post_store-post_data pb keeps json w req ds nodes all alone_p alone_c ans_p ans_c fresh =
    elim (Result-cases (json.unmarshal_reading req.body)) [
      | inr (why, refused) ↦ rw (refused, store_reading, post_reading) (refl, all)
      | inl (d, read) ↦ elim (Bool-cases (is_empty d.sensor_id)) [
        | inl missing ↦ rw (read, store_reading, post_reading, missing) (refl, all)
        | inr named ↦
            rw
              (
                post_store-ok json w.now req d ds read named,
                post_data-ok pb keeps json w req d nodes alone_p alone_c ans_p ans_c read named
                    fresh,
              )
              (refl, store_data_point-IsSame (stamp w.now d) ds nodes all)
      ]
    ]
