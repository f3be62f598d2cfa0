-- ===== src/Database/Service/Request.antt =====
-- What can happen to a database server: a call that may change its state, a tick of the cleanup
-- goroutine, or `Stop`. (A panic of `Stop` ends the process; the state is left as it was.)
use distributed_systems_go.Base.{List, [], ◌∷◌, none, some}
use distributed_systems_go.Types.{Time}
use distributed_systems_go.Rpc.{
  TimestampPb, SensorDataRequest, TransactionRequest, TransactionId, SensorIdRequest,
}
use distributed_systems_go.Database.Service.{
  Service, create_sensor_data, prepare_transaction, commit_transaction, abort_transaction,
  update_sensor_data, delete_sensor_data, tick, stop,
}

pub data Request (T : Type 0) : Type 0 where
  create : Time → SensorDataRequest T → Request T
  prepare : Time → Time → TransactionRequest T → Request T
  commit : TransactionId → Request T
  abort : TransactionId → Request T
  update : SensorDataRequest T → Request T
  delete : SensorIdRequest → Request T
  clock : Time → Request T
  halt : Request T

module _ (pb : TimestampPb) where
  open pb use {Timestamp}

  -- the state after one request
  unfoldable pub handle : Request Timestamp → Service → Service
  handle (create now req) s = (create_sensor_data pb now req s).0
  handle (prepare now when req) s = (prepare_transaction pb now when req s).0
  handle (commit req) s = (commit_transaction req s).0
  handle (abort req) s = (abort_transaction req s).0
  handle (update req) s = (update_sensor_data pb req s).0
  handle (delete req) s = (delete_sensor_data req s).0
  handle (clock now) s = tick now s
  handle halt s = elim (stop s) [ none ↦ s | some s' ↦ s' ]

  -- the state after requests in the order in which their handlers take the mutexes
  unfoldable pub run : List (Request Timestamp) → Service → Service
  run [] s = s
  run (r ∷ rs) s = run rs (handle r s)
