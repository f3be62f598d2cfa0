-- ===== src/Database/Service/Once.antt =====
-- A prepared transaction is stored at most once: commits that succeed need prepares that do.
use distributed_systems_go.Base.{
  ℕ, ◌+◌, ◌≤◌, ◌≡◌, refl, Bool, Bool-cases, inl, inr, is_empty, true, ◌++◌, false, ◌&&◌, List, [],
  ◌∷◌, Option, none, some, arith, if◌then◌else◌, Text, eq_text, eq_text_iff,
}
use distributed_systems_go.Base.Table.{lookup, insert, erase, lookup-insert, lookup-erase}
use distributed_systems_go.Types.{Time}
use distributed_systems_go.Rpc.{TimestampPb, SensorDataRequest, TransactionId}
use distributed_systems_go.Database.Service.{
  Service, TransactionState, tick, stop, cleanup_expired_transactions, add_data_point_internal,
  commit_found, commit_transaction, abort_found, abort_transaction, create_sensor_data,
  prepare_data, proto_to_sensor_data, prepare_transaction, update_stamped, update_sensor_data,
  delete_sensor_data, trim,
}
use distributed_systems_go.Database.Service.Expiry.{lookup-remove_expired_self}
use distributed_systems_go.Database.Service.Request.{
  Request, create, prepare, commit, abort, update, delete, clock, halt, handle, run,
}
use distributed_systems_go.Database.Service.Invariant.{IsValid, handle-IsValid}

-- 1 if the transaction is prepared
abbrev pub held_by : Option TransactionState → ℕ
held_by none = 0
held_by (some _) = 1

abbrev pub held : Text → Service → ℕ
held id s = held_by (lookup id s.prepared_txns)

abbrev one_if : Bool → ℕ
one_if b = if b then 1 else 0

held-insert :
    (k id : Text) (t : TransactionState) (s : Service)
    → held_by (lookup id (insert k t s.prepared_txns)) ≤ one_if (eq_text k id) + held id s
held-insert k id t s = rw lookup-insert (ground arith)

held-erase : (k id : Text) (s : Service) → held_by (lookup id (erase k s.prepared_txns)) ≤ held id s
held-erase k id s = rw lookup-erase (ground arith)

module _ (pb : TimestampPb) (id : Text) where
  open pb use {Timestamp}

  -- the request is a prepare of the transaction, and the server votes yes
  abbrev pub votes : Request Timestamp → Service → Bool
  votes (prepare now when req) s =
      eq_text req.transaction_id id && (prepare_transaction pb now when req s).1.success
  votes _ s = false

  -- the request is a commit of the transaction, and the server stores its reading
  abbrev pub stores : Request Timestamp → Service → Bool
  stores (commit req) s = eq_text req.transaction_id id && (commit_transaction req s).1.success
  stores _ s = false

  abbrev pub count_votes : List (Request Timestamp) → Service → ℕ
  count_votes [] s = 0
  count_votes (r ∷ rs) s = one_if (votes r s) + count_votes rs (handle pb r s)

  abbrev pub count_stores : List (Request Timestamp) → Service → ℕ
  count_stores [] s = 0
  count_stores (r ∷ rs) s = one_if (stores r s) + count_stores rs (handle pb r s)

  prepare_data-held :
      (now when : Time) (k : Text) (d : Option (SensorDataRequest Timestamp)) (s : Service)
      → held id (prepare_data pb now when k d s).0
        ≤ one_if (eq_text k id && (prepare_data pb now when k d s).1.success) + held id s
  unfolding prepare_data
  prepare_data-held now when k none s = ground arith
  prepare_data-held now when k (some d) s =
      let t : TransactionState = record {
        transaction_id = k;
        sensor_data = proto_to_sensor_data pb now d;
        prepared_at = when;
      } in
      ground (arith, held-insert k id t s)

  commit_found-held :
      (k : Text) (s : Service)
      → one_if (eq_text k id && (commit_found k (lookup k s.prepared_txns) s).1.success)
          + held id (commit_found k (lookup k s.prepared_txns) s).0
        ≤ held id s
  unfolding commit_found add_data_point_internal
  commit_found-held k s = ground (arith, lookup-erase k id s.prepared_txns, eq_text_iff k id)

  abort_found-held :
      (k : Text) (o : Option TransactionState) (s : Service)
      → held id (abort_found k o s).0 ≤ held id s
  unfolding abort_found
  abort_found-held k none s = omega arith
  abort_found-held k (some t) s = held-erase k id s

  update_stamped-held :
      (o : Option Timestamp) (req : SensorDataRequest Timestamp) (s : Service)
      → held id (update_stamped pb o req s).0 ≤ held id s
  unfolding update_stamped
  update_stamped-held o req s = ground arith

  tick-held : (now : Time) (s : Service) → IsValid s → held id (tick now s) ≤ held id s
  unfolding tick cleanup_expired_transactions
  tick-held now s v =
      ground (arith, lookup-remove_expired_self now s.txn_timeout id s.prepared_txns v.distinct)

  handle-held :
      (r : Request Timestamp) (s : Service)
      → IsValid s
      → one_if (stores r s) + held id (handle pb r s) ≤ one_if (votes r s) + held id s
  unfolding handle
  handle-held (create now req) s v =
      unfold create_sensor_data add_data_point_internal in ground arith
  handle-held (prepare now when req) s v =
      unfold prepare_transaction in
      ground (arith, prepare_data-held now when req.transaction_id req.sensor_data s)
  handle-held (commit req) s v =
      unfold commit_transaction in ground (arith, commit_found-held req.transaction_id s)
  handle-held (abort req) s v =
      unfold abort_transaction in
      ground
        (arith, abort_found-held req.transaction_id (lookup req.transaction_id s.prepared_txns) s)
  handle-held (update req) s v =
      unfold update_sensor_data in ground (arith, update_stamped-held req.timestamp req s)
  handle-held (delete req) s v = unfold delete_sensor_data in ground arith
  handle-held (clock now) s v = ground (arith, tick-held now s v)
  handle-held halt s v = unfold stop in ground arith

  stores-count :
      (rs : List (Request Timestamp)) (s : Service)
      → IsValid s
      → count_stores rs s + held id (run pb rs s) ≤ count_votes rs s + held id s
  unfolding run
  stores-count [] s v = omega arith
  stores-count (r ∷ rs) s v =
      omega (arith, handle-held r s v, stores-count rs (handle pb r s) (handle-IsValid pb r s v))

-- What a commit does to the readings: if it stores, the held reading comes once to the end, and the
-- readings are cut to the limit; otherwise they stay.
abbrev pub IsStore : Text → Bool → Service → Service → Type 0
IsStore id true s s' =
    (t : TransactionState) × (lookup id s.prepared_txns ≡ some t)
    × (s'.points ≡ trim s.max_data_points (s.points ++ t.sensor_data ∷ []))
IsStore id false s s' = s'.points ≡ s.points

commit_found-IsStore :
    (id : Text) (o : Option TransactionState) (s : Service)
    → lookup id s.prepared_txns ≡ o
    → IsStore id (commit_found id o s).1.success s (commit_found id o s).0
unfolding commit_found add_data_point_internal
commit_found-IsStore id none s e = refl
commit_found-IsStore id (some t) s e = (t, e, refl)

commit-IsStore :
    (req : TransactionId) (s : Service)
    → IsStore req.transaction_id (commit_transaction req s).1.success s (commit_transaction req s).0
unfolding commit_transaction
commit-IsStore req s = elim (Bool-cases (is_empty req.transaction_id)) [
  | inl missing ↦ rw (missing, commit_transaction) refl
  | inr named ↦
      rw (named, commit_transaction)
        (commit_found-IsStore req.transaction_id (lookup req.transaction_id s.prepared_txns) s refl)
]

module _ (pb : TimestampPb) where
  open pb use {Timestamp}

  -- Every commit of the run stores as it answers.
  abbrev pub AreStores : List (Request Timestamp) → Service → Type 0
  AreStores [] s = Unit
  AreStores (commit req ∷ rs) s =
      IsStore req.transaction_id (commit_transaction req s).1.success s (handle pb (commit req) s)
      × AreStores rs (handle pb (commit req) s)
  AreStores (r ∷ rs) s = AreStores rs (handle pb r s)

  run-AreStores : (rs : List (Request Timestamp)) (s : Service) → AreStores rs s
  unfolding handle
  run-AreStores [] s = tt
  run-AreStores (commit req ∷ rs) s = (commit-IsStore req s, run-AreStores rs _)
  run-AreStores (r ∷ rs) s = run-AreStores rs (handle pb r s)

  -- Over any requests, every commit that succeeds puts the reading that the server holds for the
  -- transaction once at the end, cut to the limit, and every other commit leaves the readings as
  -- they are; and a server stores a transaction at most as often as it has voted yes for it,
  -- counting a vote from before that is still held.
  pub stores-le-votes :
      (id : Text) (rs : List (Request Timestamp)) (s : Service)
      → IsValid s
      → AreStores rs s
        × (count_stores pb id rs s + held id (run pb rs s) ≤ count_votes pb id rs s + held id s)
  stores-le-votes id rs s v = (run-AreStores rs s, stores-count pb id rs s v)
