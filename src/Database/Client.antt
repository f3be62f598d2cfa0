-- ===== src/Database/Client.antt =====
-- internal/database/client.go, the type `Client`. gRPC is not part of the repository: what becomes
-- of a call is an argument. As gRPC documents, a unary call returns the handler's response, or an
-- error; after an error the handler may have run or not. The remote server's state is passed
-- along. Time-outs and contexts show as such errors.
pub mod RoundTrip
pub mod Performance
use distributed_systems_go.Base.{
  Bool, List, [], ◌++◌, map, some, if◌then◌else◌, Text, text, Result, ok, err,
}
use distributed_systems_go.Types.{Time, SensorData}
use distributed_systems_go.Rpc.{
  TimestampPb, SensorDataRequest, OperationResponse, PrepareResponse, TransactionId,
}
use distributed_systems_go.Database.Service.{
  Service, create_sensor_data, get_all_sensor_data, get_sensor_data_by_sensor_id,
  prepare_transaction as serve_prepare, commit_transaction as serve_commit,
  abort_transaction as serve_abort,
}

-- What becomes of a call: it is answered, it fails before the handler runs, or it fails after.
pub data Fate : Type 0 where
  delivered : Fate
  lost_request lost_reply : Text → Fate

unfoldable pub rpc : {R : Type 0} → Fate → (Service → Service × R) → Service → Service × Result R
rpc delivered h s = let (s', r) = h s in (s', ok r)
rpc (lost_request e) h s = (s, err e)
rpc (lost_reply e) h s = ((h s).0, err e)

-- `fmt.Errorf("<context>: %w", err)`
unfoldable pub wrap : {R : Type 0} → Text → Result R → Result R
wrap context (ok r) = ok r
wrap context (err e) = err (context ++ (text ": " ++ e))

-- An answer without success is an error that quotes its message.
unfoldable pub check_success : Text → Result OperationResponse → Result (Unit {0})
check_success context (ok r) =
    if r.success then ok tt else err (context ++ (text ": " ++ r.message))
check_success context (err e) = err e

-- `Client.CommitTransaction`
unfoldable pub commit_transaction : Fate → Text → Service → Service × Result (Unit {0})
unfolding rpc wrap check_success
commit_transaction fate id s =
    let (s', answer) = rpc fate (serve_commit (record { transaction_id = id })) s in
    (
      s',
      check_success (text "failed to commit transaction " ++ id)
          (wrap (text "error committing transaction " ++ id) answer),
    )

-- `Client.AbortTransaction`
unfoldable pub abort_transaction : Fate → Text → Service → Service × Result (Unit {0})
unfolding rpc wrap check_success
abort_transaction fate id s =
    let (s', answer) = rpc fate (serve_abort (record { transaction_id = id })) s in
    (
      s',
      check_success (text "failed to abort transaction " ++ id)
          (wrap (text "error aborting transaction " ++ id) answer),
    )

module _ (pb : TimestampPb) where
  open pb use {Timestamp, new, as_time}

  -- the request that the client builds from a reading
  abbrev pub to_request : SensorData → SensorDataRequest Timestamp
  to_request d = record {
    sensor_id = d.sensor_id;
    timestamp = some (new d.timestamp);
    value = d.value;
    unit = d.unit;
  }

  -- the reading that the client builds from an answer
  abbrev pub of_request : SensorDataRequest Timestamp → SensorData
  of_request r = record {
    sensor_id = r.sensor_id;
    timestamp = as_time r.timestamp;
    value = r.value;
    unit = r.unit;
  }

  -- `Client.AddDataPoint`; `now` is the server's clock
  unfoldable pub add_data_point : Fate → Time → SensorData → Service → Service × Result (Unit {0})
  unfolding rpc wrap check_success
  add_data_point fate now d s =
      let (s', answer) = rpc fate (create_sensor_data pb now (to_request d)) s in
      (
        s',
        check_success (text "failed to add data point")
            (wrap (text "error adding data point") answer),
      )

  -- `Client.PrepareTransaction`; `now` and `when` are the server's clocks
  unfoldable pub prepare_transaction :
      Fate → Time → Time → Text → SensorData → Service → Service × Result PrepareResponse
  unfolding rpc wrap
  prepare_transaction fate now when id d s =
      let (s', answer) =
        rpc fate
          (serve_prepare pb now when
            (record { transaction_id = id; sensor_data = some (to_request d) }))
          s in
      (s', wrap (text "error preparing transaction " ++ id) answer)

  -- the readings of an answer, by the loop over `resp.Data`
  unfoldable pub read_list : Result (List (SensorDataRequest Timestamp)) → Result (List SensorData)
  read_list (ok items) = ok (map of_request items)
  read_list (err e) = err e

  -- `Client.GetAllDataPoints`
  unfoldable pub get_all_data_points : Fate → Service → Service × Result (List SensorData)
  unfolding rpc wrap read_list
  get_all_data_points fate s =
      let (s', answer) = rpc fate (λ t. (t, (get_all_sensor_data pb t).items)) s in
      (s', read_list (wrap (text "error getting all data points") answer))

  -- `Client.GetDataPointBySensorId`
  unfoldable pub get_data_point_by_sensor_id :
      Fate → Text → Service → Service × Result (List SensorData)
  unfolding rpc wrap read_list
  get_data_point_by_sensor_id fate id s =
      let (s', answer) =
        rpc fate (λ t. (t, (get_sensor_data_by_sensor_id pb (record { sensor_id = id }) t).items))
          s in
      (s', read_list (wrap (text "error getting data points for sensor " ++ id) answer))
