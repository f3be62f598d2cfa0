-- ===== src/Database/Service.antt =====
-- internal/database/service.go: the state of one database server and its handlers. Every handler
-- holds the mutex of the state that it touches from its first access to its return, so a handler
-- is one step. The readings of `time.Now()` are arguments. Log lines are not modelled.
pub mod Request
pub mod Window
pub mod Expiry
pub mod Invariant
pub mod Participant
pub mod Queries
pub mod Spec
pub mod Once
use distributed_systems_go.Base.{
  ℕ, ◌-◌, ◌*◌, ◌&&◌, Bool, true, false, not, List, [], ◌∷◌, ◌++◌, Option, none, some, ltb,
  if◌then◌else◌, length, drop, keep, map, Text, text, eq_text, is_empty,
}
use distributed_systems_go.Base.Table.{Table, lookup, insert, erase}
use distributed_systems_go.Types.{Time, same_time, time_sub, SensorData}
use distributed_systems_go.Rpc.{
  TimestampPb, SensorDataRequest, OperationResponse, PrepareResponse, TransactionRequest,
  TransactionId, SensorIdRequest, SensorDataList,
}

pub record TransactionState : Type 0 where
  pub transaction_id : Text
  pub sensor_data : SensorData
  pub prepared_at : Time

-- `DatabaseService`; `points` is its field `data`, and `cleaning` is false once `stopCleanup` is
-- closed.
pub record Service : Type 0 where
  pub points : List SensorData
  pub max_data_points : ℕ
  pub prepared_txns : Table TransactionState
  pub txn_timeout : ℕ
  pub cleaning : Bool

-- `time.Second`
abbrev pub second : ℕ
second = 1_000_000_000

-- `DatabaseServiceFactory`. (A negative limit panics in `make`.)
unfoldable pub database_service_factory : ℕ → Service
database_service_factory limit = record {
  points = [];
  max_data_points = limit;
  prepared_txns = [];
  txn_timeout = 30 * second;
  cleaning = true;
}

-- `now.Sub(txnState.PreparedAt) > s.txnTimeout`
unfoldable pub is_expired : Time → ℕ → TransactionState → Bool
unfolding time_sub
is_expired now timeout t = ltb timeout (time_sub now t.prepared_at)

-- the loop of `cleanupExpiredTransactions` over the entries that the map had at its start
unfoldable pub remove_expired :
    Time → ℕ → Table TransactionState → Table TransactionState → Table TransactionState
remove_expired now timeout [] m = m
remove_expired now timeout ((k, t) ∷ entries) m =
    remove_expired now timeout entries (if is_expired now timeout t then erase k m else m)

unfoldable pub cleanup_expired_transactions : Time → Service → Service
unfolding remove_expired
cleanup_expired_transactions now s = record s {
  prepared_txns = remove_expired now s.txn_timeout s.prepared_txns s.prepared_txns;
}

-- one tick of the goroutine of `startTransactionCleanup`, which ends when `stopCleanup` is closed
unfoldable pub tick : Time → Service → Service
tick now s = if s.cleaning then cleanup_expired_transactions now s else s

-- `Stop`; closing the closed channel is a panic, `none`.
unfoldable pub stop : Service → Option Service
stop s = if s.cleaning then some (record s { cleaning = false }) else none

-- `s.data[len(s.data)-s.maxDataPoints:]` once the limit is exceeded
unfoldable pub trim : ℕ → List SensorData → List SensorData
trim limit xs = if ltb limit (length xs) then drop (length xs - limit) xs else xs

unfoldable pub add_data_point_internal : SensorData → Service → Service
add_data_point_internal d s = record s { points = trim s.max_data_points (s.points ++ d ∷ []) }

abbrev pub failed : Text → OperationResponse
failed m = record { success = false; message = m }

abbrev pub succeeded : Text → OperationResponse
succeeded m = record { success = true; message = m }

-- `fmt.Sprintf("Transaction %s not found or not prepared", id)`
unfoldable pub not_prepared : Text → Text
not_prepared id = text "Transaction " ++ (id ++ text " not found or not prepared")

-- the rest of `CommitTransaction` on the looked-up entry
unfoldable pub commit_found : Text → Option TransactionState → Service → Service × OperationResponse
commit_found id none s = (s, failed (not_prepared id))
commit_found id (some t) s =
    let stored = add_data_point_internal t.sensor_data s in
    (
      record stored { prepared_txns = erase id stored.prepared_txns },
      succeeded (text "Transaction committed successfully"),
    )

unfoldable pub commit_transaction : TransactionId → Service → Service × OperationResponse
unfolding commit_found
commit_transaction req s =
    if is_empty req.transaction_id
    then (s, failed (text "Missing transaction ID"))
    else commit_found req.transaction_id (lookup req.transaction_id s.prepared_txns) s

-- the rest of `AbortTransaction` on the looked-up entry
unfoldable pub abort_found : Text → Option TransactionState → Service → Service × OperationResponse
abort_found id none s = (s, failed (not_prepared id))
abort_found id (some t) s = (
  record s { prepared_txns = erase id s.prepared_txns },
  succeeded (text "Transaction aborted successfully"),
)

unfoldable pub abort_transaction : TransactionId → Service → Service × OperationResponse
unfolding abort_found
abort_transaction req s =
    if is_empty req.transaction_id
    then (s, failed (text "Missing transaction ID"))
    else abort_found req.transaction_id (lookup req.transaction_id s.prepared_txns) s

-- `data.SensorID == sensorID`
abbrev pub of_sensor : Text → SensorData → Bool
of_sensor id d = eq_text d.sensor_id id

unfoldable pub delete_sensor_data : SensorIdRequest → Service → Service × OperationResponse
delete_sensor_data req s =
    if is_empty req.sensor_id then (s, failed (text "Missing sensor ID")) else (
      record s { points = keep (λ d. not (of_sensor req.sensor_id d)) s.points },
      succeeded (text "Deleted data for sensor"),
    )

-- `data.SensorID == req.SensorId && data.Timestamp.Equal(timestamp)`
abbrev pub at_key : Text → Time → SensorData → Bool
at_key id t d = eq_text d.sensor_id id && same_time d.timestamp t

abbrev pub refused : Text → Text → PrepareResponse
refused m id = record { success = false; message = m; transaction_id = id }

-- The handlers that read or write time stamps.
module _ (pb : TimestampPb) where
  open pb use {Timestamp, new, as_time}

  -- `protoToSensorData`, at the clock `now`
  unfoldable pub proto_to_sensor_data : Time → SensorDataRequest Timestamp → SensorData
  proto_to_sensor_data now req = record {
    sensor_id = req.sensor_id;
    timestamp = elim req.timestamp [ none ↦ now | some ts ↦ as_time (some ts) ];
    value = req.value;
    unit = req.unit;
  }

  -- `sensorDataToProto`
  unfoldable pub sensor_data_to_proto : SensorData → SensorDataRequest Timestamp
  sensor_data_to_proto d = record {
    sensor_id = d.sensor_id;
    timestamp = some (new d.timestamp);
    value = d.value;
    unit = d.unit;
  }

  unfoldable pub create_sensor_data :
      Time → SensorDataRequest Timestamp → Service → Service × OperationResponse
  create_sensor_data now req s =
      if is_empty req.sensor_id then (s, failed (text "Missing sensor ID")) else (
        add_data_point_internal (proto_to_sensor_data now req) s,
        succeeded (text "Data stored successfully"),
      )

  -- the part of `PrepareTransaction` under the mutex; `when` is the time of preparation
  unfoldable pub prepare_locked :
      Time
      → Time
      → Text
      → SensorDataRequest Timestamp
      → Option TransactionState
      → Service
      → Service × PrepareResponse
  prepare_locked now when id d (some _) s = (s, refused (text "Transaction already prepared") id)
  prepare_locked now when id d none s = (
    record s {
      prepared_txns =
          insert id
            (record {
              transaction_id = id;
              sensor_data = proto_to_sensor_data now d;
              prepared_at = when;
            })
            s.prepared_txns;
    },
    record {
      success = true;
      message = text "Transaction prepared successfully";
      transaction_id = id;
    },
  )

  -- the checks of `PrepareTransaction` on the sensor data
  unfoldable pub prepare_data :
      Time
      → Time
      → Text
      → Option (SensorDataRequest Timestamp)
      → Service
      → Service × PrepareResponse
  unfolding prepare_locked
  prepare_data now when id none s = (s, refused (text "Missing sensor data") [])
  prepare_data now when id (some d) s =
      if is_empty d.sensor_id
      then (s, refused (text "Missing sensor ID in sensor data") [])
      else prepare_locked now when id d (lookup id s.prepared_txns) s

  unfoldable pub prepare_transaction :
      Time → Time → TransactionRequest Timestamp → Service → Service × PrepareResponse
  unfolding prepare_data
  prepare_transaction now when req s =
      if is_empty req.transaction_id
      then (s, refused (text "Missing transaction ID") [])
      else prepare_data now when req.transaction_id req.sensor_data s

  unfoldable pub get_all_sensor_data : Service → SensorDataList Timestamp
  get_all_sensor_data s = record { items = map sensor_data_to_proto s.points }

  -- the loop of `GetSensorDataBySensorId`, with the result so far
  unfoldable pub collect_sensor :
      Text
      → List SensorData
      → List (SensorDataRequest Timestamp)
      → List (SensorDataRequest Timestamp)
  collect_sensor id [] result = result
  collect_sensor id (d ∷ ds) result =
      collect_sensor id ds
        (if of_sensor id d then result ++ sensor_data_to_proto d ∷ [] else result)

  unfoldable pub get_sensor_data_by_sensor_id : SensorIdRequest → Service → SensorDataList Timestamp
  unfolding collect_sensor
  get_sensor_data_by_sensor_id req s =
      if is_empty req.sensor_id
      then record { items = [] }
      else record { items = collect_sensor req.sensor_id s.points [] }

  -- the loop of `UpdateSensorData`, which stops at the first match: the new slice, and whether
  -- there was one
  unfoldable pub update_first :
      Text → Time → SensorDataRequest Timestamp → List SensorData → List SensorData × Bool
  update_first id t req [] = ([], false)
  update_first id t req (d ∷ ds) =
      let (rest, updated) = update_first id t req ds in
      if at_key id t d
      then (record d { value = req.value; unit = req.unit } ∷ ds, true)
      else (d ∷ rest, updated)

  -- `UpdateSensorData` behind its check
  unfoldable pub update_at :
      Time → SensorDataRequest Timestamp → Service → Service × OperationResponse
  unfolding update_first
  update_at t req s =
      let (points, updated) = update_first req.sensor_id t req s.points in
      (
        record s { points = points },
        if updated
            then succeeded (text "Data updated successfully")
            else failed (text "Data not found"),
      )

  -- `UpdateSensorData` on the time stamp of the request
  unfoldable pub update_stamped :
      Option Timestamp → SensorDataRequest Timestamp → Service → Service × OperationResponse
  unfolding update_at
  update_stamped none req s = (s, failed (text "Missing sensor ID or timestamp"))
  update_stamped (some ts) req s =
      if is_empty req.sensor_id
      then (s, failed (text "Missing sensor ID or timestamp"))
      else update_at (as_time (some ts)) req s

  unfoldable pub update_sensor_data :
      SensorDataRequest Timestamp → Service → Service × OperationResponse
  unfolding update_stamped
  update_sensor_data req s = update_stamped req.timestamp req s
