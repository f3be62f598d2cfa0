-- ===== src/Database/Service/Spec.antt =====
-- A database server implements its specification: `Promise` states what it promises, `Steps` that
-- each handler keeps to it.
pub mod Promise
mod Steps
use distributed_systems_go.Base.{
  ℕ, ◌≡◌, refl, ◌∙◌, sym, ap, Bool, true, false, inl, inr, Bool-cases, List, [], ◌∷◌, ◌++◌, ◌*◌,
  text, Option, none, some, arith, if◌then◌else◌, Text, is_empty, eq_text, All,
}
use distributed_systems_go.Base.Table.{lookup, erase, lookup-insert, lookup-erase, IsDistinct}
use distributed_systems_go.Types.{Time, SensorData}
use distributed_systems_go.Rpc.{TimestampPb, SensorDataRequest}
use distributed_systems_go.Database.Service.{
  Service, TransactionState, trim, database_service_factory, tick, stop,
  cleanup_expired_transactions, add_data_point_internal, commit_found, commit_transaction,
  abort_found, abort_transaction, create_sensor_data, proto_to_sensor_data, prepare_locked,
  prepare_data, prepare_transaction, second, refused,
}
use distributed_systems_go.Database.Service.Window.{trim-append, trim_within, trim-end}
use distributed_systems_go.Database.Service.Expiry.{fresh, lookup-remove_expired_self}
use distributed_systems_go.Database.Service.Request.{
  Request, create, prepare, commit, abort, update, delete, clock, halt, handle, run,
}
use distributed_systems_go.Database.Service.Invariant.{
  IsValid, handle-IsValid, database_service_factory-IsValid,
}
use distributed_systems_go.Database.Service.Spec.Steps.{handle-Implements}
pub use Promise.*

module _ (pb : TimestampPb) where
  open pb use {Timestamp}

  vote-limit :
      (now when : Time) (id : Text) (d : Option (SensorDataRequest Timestamp))
      (o : Option TransactionState) (l : Ledger)
      → (vote pb now when id d o l).limit ≡ l.limit
  vote-limit now when id none o l = refl
  vote-limit now when id (some d) (some t) l = refl
  vote-limit now when id (some d) none l = ground arith

  settle-limit :
      (id : Text) (o : Option TransactionState) (l : Ledger) → (settle id o l).limit ≡ l.limit
  settle-limit id none l = refl
  settle-limit id (some t) l = refl

  forget-limit :
      (id : Text) (o : Option TransactionState) (l : Ledger) → (forget id o l).limit ≡ l.limit
  forget-limit id none l = refl
  forget-limit id (some t) l = refl

  promise-limit : (r : Request Timestamp) (l : Ledger) → (promise pb r l).limit ≡ l.limit
  promise-limit (create now req) l = ground arith
  promise-limit (prepare now when req) l = ground (
    arith,
    vote-limit now when req.transaction_id req.sensor_data (l.pending req.transaction_id) l,
  )
  promise-limit (commit req) l =
      ground (arith, settle-limit req.transaction_id (l.pending req.transaction_id) l)
  promise-limit (abort req) l =
      ground (arith, forget-limit req.transaction_id (l.pending req.transaction_id) l)
  promise-limit (update req) l = refl
  promise-limit (delete req) l = refl
  promise-limit (clock now) l = ground arith
  promise-limit halt l = refl

  promise_all-limit :
      (rs : List (Request Timestamp)) (l : Ledger) → (promise_all pb rs l).limit ≡ l.limit
  promise_all-limit [] l = refl
  promise_all-limit (r ∷ rs) l = promise_all-limit rs (promise pb r l) ∙ promise-limit r l

  -- Over any requests but updates and deletes, a server that implements a ledger goes on
  -- implementing it: it keeps the end of the log, and the pending transactions.
  pub run-Implements :
      (rs : List (Request Timestamp)) (s : Service) (l : Ledger)
      → All (IsAppend pb) rs
      → IsValid s
      → Implements s l
      → Implements (run pb rs s) (promise_all pb rs l)
  unfolding run
  run-Implements [] s l a v h = h
  run-Implements (r ∷ rs) s l a v h =
      run-Implements rs (handle pb r s) (promise pb r l) a.1 (handle-IsValid pb r s v)
        (handle-Implements pb r s l a.0 v h)

  -- A new server with a limit, after any requests but updates and deletes: its readings are the last
  -- ones of the specification's log, as many as the limit allows, and it has that limit, exactly
  -- the pending transactions, and the specification's time-out.
  pub run_from_new :
      (limit : ℕ) (rs : List (Request Timestamp))
      → All (IsAppend pb) rs
      → IsEndOf limit
          (promise_all pb rs (empty_ledger limit)).log
          (run pb rs (database_service_factory limit)).points
        × Implements
            (run pb rs (database_service_factory limit))
            (promise_all pb rs (empty_ledger limit))
        × ((run pb rs (database_service_factory limit)).max_data_points ≡ limit)
  unfolding database_service_factory lookup
  run_from_new limit rs a =
      let done =
        run-Implements rs (database_service_factory limit) (empty_ledger limit) a
          (database_service_factory-IsValid limit)
          (record {
            same_limit = refl;
            window = sym (trim_within limit [] (omega arith));
            same_pending = λ k. refl;
            same_timeout = refl;
            same_cleaning = refl;
          }) in
      let same = done.same_limit ∙ promise_all-limit rs (empty_ledger limit) in
      let log : List SensorData = (promise_all pb rs (empty_ledger limit)).log in
      let held : (run pb rs (database_service_factory limit)).points ≡ trim limit log =
        done.window ∙ ap (λ n. trim n log) same in
      (rw held (trim-end limit log), done, same)
