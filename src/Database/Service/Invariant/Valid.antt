-- ===== src/Database/Service/Invariant/Valid.antt =====
-- The invariant of a database server, kept by every request.
use distributed_systems_go.Base.{
  ℕ, ◌≤◌, ◌≡◌, refl, true, false, not, inl, inr, Bool-cases, List, [], ◌∷◌, ◌++◌, Option, none,
  some, arith, if◌then◌else◌, length, length-keep, Text, is_empty, All, All-append, All-keep,
}
use distributed_systems_go.Base.Table.{
  Table, lookup, erase, IsDistinct, erase-IsDistinct, erase-All, lookup-All,
}
use distributed_systems_go.Types.{Time, SensorData}
use distributed_systems_go.Rpc.{TransactionId, SensorIdRequest}
use distributed_systems_go.Database.Service.Expiry.{remove_expired-IsDistinct, remove_expired-All}
use distributed_systems_go.Database.Service.{
  Service, TransactionState, database_service_factory, of_sensor, add_data_point_internal,
  commit_found, commit_transaction, abort_found, abort_transaction, delete_sensor_data,
  cleanup_expired_transactions, tick, stop,
}
use distributed_systems_go.Database.Service.Window.{length-trim, trim-All}

-- A reading names its sensor.
abbrev pub HasSensor : SensorData → Type 0
HasSensor d = is_empty d.sensor_id ≡ false

-- An entry of `preparedTxns` is stored under its own id, which is not empty.
abbrev pub IsEntry : Text × TransactionState → Type 0
IsEntry (k, t) = (t.transaction_id ≡ k) × (is_empty k ≡ false) × HasSensor t.sensor_data

pub record IsValid (s : Service) : Type 0 where
  pub within : length s.points ≤ s.max_data_points
  pub named : All HasSensor s.points
  pub distinct : IsDistinct s.prepared_txns
  pub entries : All IsEntry s.prepared_txns

pub database_service_factory-IsValid : (limit : ℕ) → IsValid (database_service_factory limit)
unfolding database_service_factory
database_service_factory-IsValid limit = ground arith

pub add_data_point_internal-IsValid :
    (d : SensorData) (s : Service) → HasSensor d → IsValid s → IsValid (add_data_point_internal d s)
unfolding add_data_point_internal
add_data_point_internal-IsValid d s h v = record {
  within = length-trim s.max_data_points (s.points ++ d ∷ []);
  named =
      trim-All HasSensor s.max_data_points (s.points ++ d ∷ [])
        (All-append HasSensor s.points (d ∷ []) v.named (h, tt));
  distinct = v.distinct;
  entries = v.entries;
}

pub with_txns-IsValid :
    (m : Table TransactionState) (s : Service)
    → IsValid s
    → IsDistinct m
    → All IsEntry m
    → IsValid (record s { prepared_txns = m })
with_txns-IsValid m s v d e = record {
  within = v.within;
  named = v.named;
  distinct = d;
  entries = e;
}

pub with_points-IsValid :
    (xs : List SensorData) (s : Service)
    → IsValid s
    → length xs ≤ length s.points
    → All HasSensor xs
    → IsValid (record s { points = xs })
with_points-IsValid xs s v l h =
    let w : length s.points ≤ s.max_data_points = v.within in
    record { within = omega arith; named = h; distinct = v.distinct; entries = v.entries }

pub erased-IsValid :
    (k : Text) (s : Service)
    → IsValid s
    → IsValid (record s { prepared_txns = erase k s.prepared_txns })
erased-IsValid k s v =
    with_txns-IsValid _ s v (erase-IsDistinct k s.prepared_txns v.distinct)
      (erase-All IsEntry k s.prepared_txns v.entries)

pub commit_found-IsValid :
    (id : Text) (o : Option TransactionState) (s : Service)
    → lookup id s.prepared_txns ≡ o
    → IsValid s
    → IsValid (commit_found id o s).0
unfolding commit_found add_data_point_internal
commit_found-IsValid id none s e v = v
commit_found-IsValid id (some t) s e v =
    erased-IsValid id (add_data_point_internal t.sensor_data s) (
      add_data_point_internal-IsValid t.sensor_data s
        (lookup-All IsEntry id s.prepared_txns v.entries e).2 v)

pub commit_transaction-IsValid :
    (req : TransactionId) (s : Service) → IsValid s → IsValid (commit_transaction req s).0
unfolding commit_transaction
commit_transaction-IsValid req s v = elim (Bool-cases (is_empty req.transaction_id)) [
  | inl missing ↦ rw missing v
  | inr named ↦ rw named (commit_found-IsValid req.transaction_id _ s refl v)
]

pub abort_found-IsValid :
    (id : Text) (o : Option TransactionState) (s : Service)
    → IsValid s
    → IsValid (abort_found id o s).0
unfolding abort_found
abort_found-IsValid id none s v = v
abort_found-IsValid id (some t) s v = erased-IsValid id s v

pub abort_transaction-IsValid :
    (req : TransactionId) (s : Service) → IsValid s → IsValid (abort_transaction req s).0
unfolding abort_transaction
abort_transaction-IsValid req s v = elim (Bool-cases (is_empty req.transaction_id)) [
  | inl missing ↦ rw missing v
  | inr named ↦ rw named (abort_found-IsValid req.transaction_id _ s v)
]

pub delete_sensor_data-IsValid :
    (req : SensorIdRequest) (s : Service) → IsValid s → IsValid (delete_sensor_data req s).0
unfolding delete_sensor_data
delete_sensor_data-IsValid req s v = elim (Bool-cases (is_empty req.sensor_id)) [
  | inl missing ↦ rw missing v
  | inr named ↦ rw named (
      with_points-IsValid _ s v (length-keep (λ d. not (of_sensor req.sensor_id d)) s.points)
        (All-keep HasSensor (λ d. not (of_sensor req.sensor_id d)) s.points v.named))
]

pub tick-IsValid : (now : Time) (s : Service) → IsValid s → IsValid (tick now s)
unfolding tick cleanup_expired_transactions
tick-IsValid now s v =
    elim s.cleaning as (λ b. IsValid (if b then cleanup_expired_transactions now s else s)) [
      | true ↦
          with_txns-IsValid _ s v
            (remove_expired-IsDistinct now s.txn_timeout s.prepared_txns s.prepared_txns v.distinct)
            (remove_expired-All now s.txn_timeout IsEntry s.prepared_txns s.prepared_txns v.entries)
      | false ↦ v
    ]

pub halt-IsValid : (s : Service) → IsValid s → IsValid (elim (stop s) [ none ↦ s | some s' ↦ s' ])
unfolding stop
halt-IsValid s v =
    elim s.cleaning
      as (λ b.
        IsValid (elim (if b then some (record s { cleaning = false }) else none) as (λ _. Service) [
          | none ↦ s
          | some s' ↦ s'
        ])) [
          | true ↦ record {
            within = v.within;
            named = v.named;
            distinct = v.distinct;
            entries = v.entries;
          }
          | false ↦ v
        ]
