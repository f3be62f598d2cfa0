-- ===== src/Database/Service/Invariant.antt =====
-- The invariant of a database server over all its requests.
mod Valid
use distributed_systems_go.Base.{
  ℕ, ◌≤◌, ◌≡◌, refl, true, false, not, inl, inr, Bool-cases, List, [], ◌∷◌, ◌++◌, Option, none,
  some, arith, if◌then◌else◌, length, length-keep, Text, is_empty, All, All-append, All-keep,
}
use distributed_systems_go.Base.Table.{
  Table, lookup, erase, IsDistinct, insert-IsDistinct, erase-IsDistinct, insert-All, erase-All,
  lookup-All,
}
use distributed_systems_go.Types.{Time, SensorData}
use distributed_systems_go.Rpc.{
  TimestampPb, SensorDataRequest, TransactionRequest, TransactionId, SensorIdRequest,
}
use distributed_systems_go.Database.Service.Expiry.{remove_expired-IsDistinct, remove_expired-All}
use distributed_systems_go.Database.Service.{
  Service, TransactionState, database_service_factory, of_sensor, add_data_point_internal,
  commit_found, commit_transaction, abort_found, abort_transaction, delete_sensor_data,
  cleanup_expired_transactions, tick, stop, create_sensor_data, proto_to_sensor_data,
  prepare_transaction, prepare_data, prepare_locked, update_first, update_stamped,
  update_sensor_data,
}
use distributed_systems_go.Database.Service.Window.{length-trim, trim-All}
use distributed_systems_go.Database.Service.Request.{
  Request, create, prepare, commit, abort, update, delete, clock, halt, handle, run,
}
pub use Valid.*

module _ (pb : TimestampPb) where
  open pb use {Timestamp, as_time}

  pub create_sensor_data-IsValid :
      (now : Time) (req : SensorDataRequest Timestamp) (s : Service)
      → IsValid s
      → IsValid (create_sensor_data pb now req s).0
  unfolding create_sensor_data proto_to_sensor_data
  create_sensor_data-IsValid now req s v = elim (Bool-cases (is_empty req.sensor_id)) [
    | inl missing ↦ rw missing v
    | inr named ↦
        rw named (add_data_point_internal-IsValid (proto_to_sensor_data pb now req) s named v)
  ]

  prepare_locked-IsValid :
      (now when : Time) (id : Text) (d : SensorDataRequest Timestamp) (o : Option TransactionState)
      (s : Service)
      → is_empty id ≡ false
      → is_empty d.sensor_id ≡ false
      → IsValid s
      → IsValid (prepare_locked pb now when id d o s).0
  unfolding prepare_locked proto_to_sensor_data
  prepare_locked-IsValid now when id d (some _) s hi hd v = v
  prepare_locked-IsValid now when id d none s hi hd v =
      with_txns-IsValid _ s v (insert-IsDistinct id _ s.prepared_txns v.distinct)
        (insert-All IsEntry id _ s.prepared_txns (refl, hi, hd) v.entries)

  prepare_data-IsValid :
      (now when : Time) (id : Text) (d : Option (SensorDataRequest Timestamp)) (s : Service)
      → is_empty id ≡ false
      → IsValid s
      → IsValid (prepare_data pb now when id d s).0
  unfolding prepare_data
  prepare_data-IsValid now when id none s hi v = v
  prepare_data-IsValid now when id (some d) s hi v = elim (Bool-cases (is_empty d.sensor_id)) [
    | inl missing ↦ rw missing v
    | inr named ↦ rw named (prepare_locked-IsValid now when id d _ s hi named v)
  ]

  pub prepare_transaction-IsValid :
      (now when : Time) (req : TransactionRequest Timestamp) (s : Service)
      → IsValid s
      → IsValid (prepare_transaction pb now when req s).0
  unfolding prepare_transaction
  prepare_transaction-IsValid now when req s v = elim (Bool-cases (is_empty req.transaction_id)) [
    | inl missing ↦ rw missing v
    | inr named ↦
        rw named (prepare_data-IsValid now when req.transaction_id req.sensor_data s named v)
  ]

  pub length-update_first :
      (id : Text) (t : Time) (req : SensorDataRequest Timestamp) (ds : List SensorData)
      → length (update_first pb id t req ds).0 ≡ length ds
  unfolding update_first
  length-update_first id t req [] = refl
  length-update_first id t req (d ∷ ds) = ground (arith, length-update_first id t req ds)

  update_first-All :
      (id : Text) (t : Time) (req : SensorDataRequest Timestamp) (ds : List SensorData)
      → All HasSensor ds
      → All HasSensor (update_first pb id t req ds).0
  unfolding update_first
  update_first-All id t req [] h = h
  update_first-All id t req (d ∷ ds) h = ground (arith, update_first-All id t req ds h.1)

  update_stamped-IsValid :
      (ts : Option Timestamp) (req : SensorDataRequest Timestamp) (s : Service)
      → IsValid s
      → IsValid (update_stamped pb ts req s).0
  unfolding update_stamped
  update_stamped-IsValid none req s v = v
  update_stamped-IsValid (some ts) req s v = elim (Bool-cases (is_empty req.sensor_id)) [
    | inl missing ↦ rw missing v
    | inr named ↦
        let t : Time = as_time (some ts) in
        let n : length (update_first pb req.sensor_id t req s.points).0 ≡ length s.points =
          length-update_first req.sensor_id t req s.points in
        rw named (
          with_points-IsValid _ s v (omega arith)
            (update_first-All req.sensor_id t req s.points v.named))
  ]

  pub update_sensor_data-IsValid :
      (req : SensorDataRequest Timestamp) (s : Service)
      → IsValid s
      → IsValid (update_sensor_data pb req s).0
  unfolding update_sensor_data
  update_sensor_data-IsValid req s v = update_stamped-IsValid req.timestamp req s v

  -- Every request keeps the invariant.
  pub handle-IsValid : (r : Request Timestamp) (s : Service) → IsValid s → IsValid (handle pb r s)
  unfolding handle
  handle-IsValid (create now req) s v = create_sensor_data-IsValid now req s v
  handle-IsValid (prepare now when req) s v = prepare_transaction-IsValid now when req s v
  handle-IsValid (commit req) s v = commit_transaction-IsValid req s v
  handle-IsValid (abort req) s v = abort_transaction-IsValid req s v
  handle-IsValid (update req) s v = update_sensor_data-IsValid req s v
  handle-IsValid (delete req) s v = delete_sensor_data-IsValid req s v
  handle-IsValid (clock now) s v = tick-IsValid now s v
  handle-IsValid halt s v = halt-IsValid s v

  pub run-IsValid :
      (rs : List (Request Timestamp)) (s : Service) → IsValid s → IsValid (run pb rs s)
  unfolding run
  run-IsValid [] s v = v
  run-IsValid (r ∷ rs) s v = run-IsValid rs (handle pb r s) (handle-IsValid r s v)
