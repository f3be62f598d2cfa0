-- ===== src/Cmd/Server.antt =====
-- cmd/server/main.go: the handlers of the HTTP server over the two databases, and their routes.
-- The state is the list of database servers. What a request meets on the way (the calls of the
-- coordinator, the random bytes of the transaction id, clocks) is the argument `World`.
pub mod Routes
pub mod Performance
pub mod Data
pub mod Wire
pub mod Main
use distributed_systems_go.Base.{
  ℕ, zero, suc, ◌+◌, ◌*◌, ◌/◌, Bool, true, false, List, [], ◌∷◌, ◌++◌, Option, none, some,
  if◌then◌else◌, ltb, ◌==◌, drop, is_empty, eq_text, Text, text, Result, ok, err,
}
use distributed_systems_go.Base.Int.{ℤ}
use distributed_systems_go.Types.{Time, is_zero, SensorData}
use distributed_systems_go.Rpc.{TimestampPb}
use distributed_systems_go.Database.Service.{Service, second}
use distributed_systems_go.Database.Client.{Fate}
use distributed_systems_go.Database.Coordinator.{
  Plan, generate_transaction_id, add_data_point_with_two_phase_commit, get_all_from_first,
  get_sensor_from_first,
}
use distributed_systems_go.Http.Message.{
  Request, Response, status_ok, status_bad_request, status_not_found, status_server_error,
  plain_response, create_json_response, create_html_response,
}
use distributed_systems_go.Database.Statistics.{Stats, no_stats, count_rtt}
use distributed_systems_go.Http.Server.{RequestHandler, Server, server_factory, register_handler}
use distributed_systems_go.Cmd.Json.{Json}

-- one transaction's surroundings: its calls, `rand.Read`, `time.Now().UnixNano()`, the time before
-- it, and the nanoseconds that it took
pub record Trial (T : Type 0) : Type 0 where
  pub plan : Plan T
  pub random : Option (List ℕ)
  pub unix_nano : ℕ
  pub started : Time
  pub rtt : ℕ

pub record World (T : Type 0) : Type 0 where
  pub now : Time
  pub trial : Trial T
  pub read_fate : Fate
  pub trials : ℕ → Trial T

abbrev pub iterations : ℕ
iterations = 10_000

-- "set timestamp to current time if not provided"
unfoldable pub stamp : Time → SensorData → SensorData
stamp now d = if is_zero d.timestamp then record d { timestamp = now } else d

-- the response to a transaction's result
unfoldable pub stored_response : Result (Unit {0}) → Response
stored_response (ok _) =
    plain_response status_ok (text "Data stored successfully using Two-Phase Commit")
stored_response (err e) = plain_response status_server_error (text "Error storing data: " ++ e)

module _ (json : Json) where
  open json use {marshal_readings, marshal_stats}

  -- the JSON of readings, or a server error
  unfoldable pub json_response : Result Text → Response
  json_response (ok body) = create_json_response status_ok body
  json_response (err e) = plain_response status_server_error (text "Server error: " ++ e)

  unfoldable pub all_response : Result (List SensorData) → Response
  all_response (ok ds) = json_response (marshal_readings ds)
  all_response (err e) = plain_response status_server_error (text "Error retrieving data: " ++ e)

  unfoldable pub sensor_response : Text → Result (List SensorData) → Response
  sensor_response id (ok []) =
      plain_response status_not_found (text "No data found for sensor " ++ id)
  sensor_response id (ok (d ∷ ds)) = json_response (marshal_readings (d ∷ ds))
  sensor_response id (err e) =
      plain_response status_server_error (text "Error retrieving data: " ++ e)

  unfoldable pub performance_response : ℕ × ℕ × ℕ → Response
  performance_response (low, high, mean) = elim (marshal_stats iterations low high mean) [
    | ok body ↦ create_json_response status_ok body
    | err e ↦ plain_response status_server_error (text "Error marshaling results: " ++ e)
  ]

module _ (pb : TimestampPb) where
  open pb use {Timestamp}

  -- `AddDataPointWithTwoPhaseCommit` with its id
  unfoldable pub transact :
      Trial Timestamp → SensorData → List Service → List Service × Result (Unit {0})
  transact t d nodes =
      add_data_point_with_two_phase_commit pb t.plan (generate_transaction_id t.random t.unix_nano)
        d nodes

  -- `MeasureTwoPhaseCommitLatency`, with its fixed reading
  unfoldable pub measure_latency : Trial Timestamp → List Service → List Service × Result ℕ
  measure_latency t nodes =
      let (nodes', result) =
        transact t
          (record {
            sensor_id = text "2pc-perf-test";
            timestamp = t.started;
            value = 0x4045_0000_0000_0000;
            unit = text "test";
          })
          nodes in
      (
        nodes',
        elim result [
          | ok _ ↦ ok t.rtt
          | err e ↦ err (text "error during 2PC performance test: " ++ e)
        ],
      )

  -- the loop of `RunTwoPhaseCommitPerformanceTest`, on the rounds left
  unfoldable pub run_trials : ℕ → ℕ → World Timestamp → Stats → List Service → List Service × Stats
  run_trials zero i w s nodes = (nodes, s)
  run_trials (suc n) i w s nodes =
      let (nodes', rtt) = measure_latency (w.trials i) nodes in
      run_trials n (i + 1) w (count_rtt rtt s) nodes'

  -- `RunTwoPhaseCommitPerformanceTest` of at least one round: the least, the greatest and the mean
  unfoldable pub run_two_phase_commit_performance_test :
      ℕ → World Timestamp → List Service → List Service × ℕ × ℕ × ℕ
  unfolding run_trials
  run_two_phase_commit_performance_test n w nodes =
      let (nodes', s) = run_trials n 0 w no_stats nodes in (nodes', s.low, s.high, s.total / n)

-- `GET /`, which answers with a fixed page
unfoldable pub get_root : Text → RequestHandler (List Service)
get_root page req nodes = (nodes, create_html_response status_ok page)

module _ (pb : TimestampPb) (json : Json) where
  open pb use {Timestamp}
  open json use {unmarshal_reading}

  -- `POST /data` on the decoded body
  unfoldable pub post_reading :
      World Timestamp → Result SensorData → List Service → List Service × Response
  post_reading w (err e) nodes =
      (nodes, plain_response status_bad_request (text "Invalid JSON: " ++ e))
  post_reading w (ok d) nodes =
      if is_empty d.sensor_id
      then (nodes, plain_response status_bad_request (text "Missing sensorId"))
      else let (nodes', result) = transact pb w.trial (stamp w.now d) nodes in
        (nodes', stored_response result)

  unfoldable pub post_data : World Timestamp → RequestHandler (List Service)
  post_data w req nodes = post_reading w (unmarshal_reading req.body) nodes

  -- `GET /data`
  unfoldable pub get_data : World Timestamp → RequestHandler (List Service)
  get_data w req nodes = (nodes, all_response json (get_all_from_first pb w.read_fate nodes))

  -- `GET /data/*`; `path[6:]` is in range, as the route's own path has seven bytes
  unfoldable pub get_sensor : World Timestamp → RequestHandler (List Service)
  get_sensor w req nodes =
      if eq_text req.path (text "/data/")
      then (nodes, plain_response status_bad_request (text "Missing sensor ID"))
      else let id = drop 6 req.path in
        (nodes, sensor_response json id (get_sensor_from_first pb w.read_fate id nodes))

  -- `GET /performance/2pc`
  unfoldable pub get_performance : World Timestamp → RequestHandler (List Service)
  get_performance w req nodes =
      let (nodes', low, high, mean) = run_two_phase_commit_performance_test pb iterations w nodes in
      (nodes', performance_response json (low, high, mean))

  -- `registerHandlers`
  unfoldable pub register_handlers :
      Text → World Timestamp → Server (List Service) → Server (List Service)
  register_handlers page w s =
      register_handler (text "GET") (text "/performance/2pc") (get_performance w) (
        register_handler (text "GET") (text "/") (get_root page) (
          register_handler (text "GET") (text "/data/*") (get_sensor w) (
            register_handler (text "GET") (text "/data") (get_data w)
              (register_handler (text "POST") (text "/data") (post_data w) s))))
