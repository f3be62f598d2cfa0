-- ===== src/Database/Service/Spec/Promise.antt =====
-- What a database server promises, without slices, limits and hash maps: a log that only grows,
-- and the transactions that are pending as a function of their id. The server keeps the last
-- `maxDataPoints` readings of that log.
use distributed_systems_go.Base.{
  ℕ, ◌≡◌, Bool, true, false, List, [], ◌∷◌, ◌++◌, ◌*◌, Option, none, some, if◌then◌else◌, Text,
  is_empty, eq_text, length, min,
}
use distributed_systems_go.Base.Table.{lookup}
use distributed_systems_go.Types.{Time, SensorData}
use distributed_systems_go.Rpc.{TimestampPb, SensorDataRequest}
use distributed_systems_go.Database.Service.{
  Service, TransactionState, trim, proto_to_sensor_data, second,
}
use distributed_systems_go.Database.Service.Expiry.{fresh}
use distributed_systems_go.Database.Service.Request.{
  Request, create, prepare, commit, abort, update, delete, clock, halt,
}

pub record Ledger : Type 0 where
  pub limit : ℕ
  pub log : List SensorData
  pub pending : Text → Option TransactionState
  pub timeout : ℕ
  pub cleaning : Bool

abbrev pub empty_ledger : ℕ → Ledger
empty_ledger limit = record {
  limit = limit;
  log = [];
  pending = λ _. none;
  timeout = 30 * second;
  cleaning = true;
}

abbrev pub set_pending : Text → Option TransactionState → Ledger → Ledger
set_pending id o l = record l { pending = λ k. if eq_text id k then o else l.pending k }

abbrev pub append_log : SensorData → Ledger → Ledger
append_log d l = record l { log = l.log ++ d ∷ [] }

-- the pending transaction becomes part of the log
abbrev pub settle : Text → Option TransactionState → Ledger → Ledger
settle id none l = l
settle id (some t) l = set_pending id none (append_log t.sensor_data l)

-- the pending transaction is dropped
abbrev pub forget : Text → Option TransactionState → Ledger → Ledger
forget id none l = l
forget id (some t) l = set_pending id none l

module _ (pb : TimestampPb) where
  open pb use {Timestamp}

  -- a vote: an id, a reading with a sensor, and no pending transaction of that id
  abbrev pub vote :
      Time
      → Time
      → Text
      → Option (SensorDataRequest Timestamp)
      → Option TransactionState
      → Ledger
      → Ledger
  vote now when id none o l = l
  vote now when id (some d) (some _) l = l
  vote now when id (some d) none l =
      if is_empty d.sensor_id
      then l
      else set_pending id
          (some (record {
            transaction_id = id;
            sensor_data = proto_to_sensor_data pb now d;
            prepared_at = when;
          }))
          l

  -- The effect of each request. Updates and deletes rewrite history and have no place here.
  abbrev pub promise : Request Timestamp → Ledger → Ledger
  promise (create now req) l =
      if is_empty req.sensor_id then l else append_log (proto_to_sensor_data pb now req) l
  promise (prepare now when req) l =
      if is_empty req.transaction_id
      then l
      else vote now when req.transaction_id req.sensor_data (l.pending req.transaction_id) l
  promise (commit req) l =
      if is_empty req.transaction_id
      then l
      else settle req.transaction_id (l.pending req.transaction_id) l
  promise (abort req) l =
      if is_empty req.transaction_id
      then l
      else forget req.transaction_id (l.pending req.transaction_id) l
  promise (update req) l = l
  promise (delete req) l = l
  promise (clock now) l =
      if l.cleaning then record l { pending = λ k. fresh now l.timeout (l.pending k) } else l
  promise halt l = record l { cleaning = false }

  abbrev pub promise_all : List (Request Timestamp) → Ledger → Ledger
  promise_all [] l = l
  promise_all (r ∷ rs) l = promise_all rs (promise r l)

  abbrev pub IsAppend : Request Timestamp → Type 0
  IsAppend (update req) = ⊥
  IsAppend (delete req) = ⊥
  IsAppend _ = Unit

-- The server has the ledger's limit, and holds the end of the log and exactly the pending
-- transactions.
pub record Implements (s : Service) (l : Ledger) : Type 0 where
  pub same_limit : s.max_data_points ≡ l.limit
  pub window : s.points ≡ trim s.max_data_points l.log
  pub same_pending : (k : Text) → lookup k s.prepared_txns ≡ l.pending k
  pub same_timeout : s.txn_timeout ≡ l.timeout
  pub same_cleaning : s.cleaning ≡ l.cleaning

-- The readings are the last ones of the log, at most `limit`, and fewer only if the log is shorter.
abbrev pub IsEndOf : ℕ → List SensorData → List SensorData → Type 0
IsEndOf limit log points =
    (length points ≡ min limit (length log)) × (before : List SensorData) × (before ++ points ≡ log)
