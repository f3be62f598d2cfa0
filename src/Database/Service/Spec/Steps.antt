-- ===== src/Database/Service/Spec/Steps.antt =====
-- Every handler of the server implements the specification's.
use distributed_systems_go.Base.{
  ◌≡◌, refl, ◌∙◌, sym, ap, true, false, inl, inr, Bool-cases, [], ◌∷◌, text, Option, none, some,
  if◌then◌else◌, Text, is_empty, eq_text,
}
use distributed_systems_go.Base.Table.{erase, lookup-insert, lookup-erase, IsDistinct}
use distributed_systems_go.Types.{Time, SensorData}
use distributed_systems_go.Rpc.{TimestampPb, SensorDataRequest}
use distributed_systems_go.Database.Service.{
  Service, TransactionState, tick, stop, cleanup_expired_transactions, add_data_point_internal,
  commit_found, commit_transaction, abort_found, abort_transaction, create_sensor_data,
  proto_to_sensor_data, prepare_locked, prepare_data, prepare_transaction, refused,
}
use distributed_systems_go.Database.Service.Window.{trim-append}
use distributed_systems_go.Database.Service.Expiry.{fresh, lookup-remove_expired_self}
use distributed_systems_go.Database.Service.Request.{
  Request, create, prepare, commit, abort, update, delete, clock, halt, handle,
}
use distributed_systems_go.Database.Service.Invariant.{IsValid}
use distributed_systems_go.Database.Service.Spec.Promise.{
  Ledger, set_pending, append_log, settle, forget, vote, promise, IsAppend, Implements,
}

append_log-Implements :
    (d : SensorData) (s : Service) (l : Ledger)
    → Implements s l
    → Implements (add_data_point_internal d s) (append_log d l)
unfolding add_data_point_internal
append_log-Implements d s l h = record {
  window = rw (h.window) (trim-append s.max_data_points l.log (d ∷ []));
  same_limit = h.same_limit;
  same_pending = h.same_pending;
  same_timeout = h.same_timeout;
  same_cleaning = h.same_cleaning;
}

erase-Implements :
    (id : Text) (s : Service) (l : Ledger)
    → Implements s l
    → Implements (record s { prepared_txns = erase id s.prepared_txns }) (set_pending id none l)
erase-Implements id s l h = record {
  window = h.window;
  same_limit = h.same_limit;
  same_pending = λ k.
      lookup-erase id k s.prepared_txns
      ∙ ap (λ o. if eq_text id k then none else o) (h.same_pending k);
  same_timeout = h.same_timeout;
  same_cleaning = h.same_cleaning;
}

commit_found-Implements :
    (id : Text) (o : Option TransactionState) (s : Service) (l : Ledger)
    → Implements s l
    → Implements (commit_found id o s).0 (settle id o l)
unfolding commit_found
commit_found-Implements id none s l h = h
commit_found-Implements id (some t) s l h =
    erase-Implements id (add_data_point_internal t.sensor_data s) (append_log t.sensor_data l)
      (append_log-Implements t.sensor_data s l h)

abort_found-Implements :
    (id : Text) (o : Option TransactionState) (s : Service) (l : Ledger)
    → Implements s l
    → Implements (abort_found id o s).0 (forget id o l)
unfolding abort_found
abort_found-Implements id none s l h = h
abort_found-Implements id (some t) s l h = erase-Implements id s l h

clock-Implements :
    (now : Time) (s : Service) (l : Ledger)
    → IsDistinct s.prepared_txns
    → Implements s l
    → Implements
        (tick now s)
        (if l.cleaning then record l { pending = λ k. fresh now l.timeout (l.pending k) } else l)
unfolding tick cleanup_expired_transactions
clock-Implements now s l d h =
    (elim s.cleaning
        as (λ b.
          b ≡ l.cleaning
          → Implements (if b then cleanup_expired_transactions now s else s) (
              if l.cleaning
              then record l { pending = λ k. fresh now l.timeout (l.pending k) }
              else l)) [
                | true ↦ λ e. rw (← e) (record {
                  window = h.window;
                  same_limit = h.same_limit;
                  same_pending = λ k.
                      lookup-remove_expired_self now s.txn_timeout k s.prepared_txns d
                      ∙ rw (h.same_timeout, h.same_pending k);
                  same_timeout = h.same_timeout;
                  same_cleaning = h.same_cleaning ∙ sym e;
                })
                | false ↦ λ e. simp (← e) h
              ])
      h.same_cleaning

halt-Implements :
    (s : Service) (l : Ledger)
    → Implements s l
    → Implements (elim (stop s) [ none ↦ s | some s' ↦ s' ]) (record l { cleaning = false })
unfolding stop
halt-Implements s l h =
    (elim s.cleaning
        as (λ b.
          s.cleaning ≡ b
          → Implements
              (elim (if b then some (record s { cleaning = false }) else none) as (λ _. Service) [
                | none ↦ s
                | some s' ↦ s'
              ])
              (record l { cleaning = false })) [
                | true ↦ λ e. record {
                  window = h.window;
                  same_limit = h.same_limit;
                  same_pending = h.same_pending;
                  same_timeout = h.same_timeout;
                  same_cleaning = refl;
                }
                | false ↦ λ e. record {
                  window = h.window;
                  same_limit = h.same_limit;
                  same_pending = h.same_pending;
                  same_timeout = h.same_timeout;
                  same_cleaning = e;
                }
              ])
      refl

module _ (pb : TimestampPb) where
  open pb use {Timestamp}

  prepare_locked-Implements :
      (now when : Time) (id : Text) (d : SensorDataRequest Timestamp) (o : Option TransactionState)
      (s : Service) (l : Ledger)
      → Implements s l
      → Implements
          (if is_empty d.sensor_id
            then (s, refused (text "Missing sensor ID in sensor data") [])
            else prepare_locked pb now when id d o s).0
          (vote pb now when id (some d) o l)
  unfolding prepare_locked
  prepare_locked-Implements now when id d (some _) s l h =
      elim (Bool-cases (is_empty d.sensor_id)) [
        | inl missing ↦ rw missing h
        | inr named ↦ rw named h
      ]
  prepare_locked-Implements now when id d none s l h = elim (Bool-cases (is_empty d.sensor_id)) [
    | inl missing ↦ rw missing h
    | inr named ↦ rw named (record {
      window = h.window;
      same_limit = h.same_limit;
      same_pending = λ k. lookup-insert id k _ s.prepared_txns ∙ rw (h.same_pending k);
      same_timeout = h.same_timeout;
      same_cleaning = h.same_cleaning;
    })
  ]

  prepare_data-Implements :
      (now when : Time) (id : Text) (d : Option (SensorDataRequest Timestamp)) (s : Service)
      (l : Ledger)
      → Implements s l
      → Implements (prepare_data pb now when id d s).0 (vote pb now when id d (l.pending id) l)
  unfolding prepare_data
  prepare_data-Implements now when id none s l h = h
  prepare_data-Implements now when id (some d) s l h =
      rw (h.same_pending id) (prepare_locked-Implements now when id d (l.pending id) s l h)

  pub handle-Implements :
      (r : Request Timestamp) (s : Service) (l : Ledger)
      → IsAppend pb r
      → IsValid s
      → Implements s l
      → Implements (handle pb r s) (promise pb r l)
  unfolding handle create_sensor_data prepare_transaction commit_transaction abort_transaction
  handle-Implements (create now req) s l a v h = elim (Bool-cases (is_empty req.sensor_id)) [
    | inl missing ↦ rw (missing, handle) h
    | inr named ↦ rw (named, handle) (append_log-Implements (proto_to_sensor_data pb now req) s l h)
  ]
  handle-Implements (prepare now when req) s l a v h =
      elim (Bool-cases (is_empty req.transaction_id)) [
        | inl missing ↦ rw (missing, handle) h
        | inr named ↦
            rw (named, handle)
              (prepare_data-Implements now when req.transaction_id req.sensor_data s l h)
      ]
  handle-Implements (commit req) s l a v h = elim (Bool-cases (is_empty req.transaction_id)) [
    | inl missing ↦ rw (missing, handle) h
    | inr named ↦
        rw (named, handle, h.same_pending req.transaction_id)
          (commit_found-Implements req.transaction_id (l.pending req.transaction_id) s l h)
  ]
  handle-Implements (abort req) s l a v h = elim (Bool-cases (is_empty req.transaction_id)) [
    | inl missing ↦ rw (missing, handle) h
    | inr named ↦
        rw (named, handle, h.same_pending req.transaction_id)
          (abort_found-Implements req.transaction_id (l.pending req.transaction_id) s l h)
  ]
  handle-Implements (update req) s l a v h = absurd a
  handle-Implements (delete req) s l a v h = absurd a
  handle-Implements (clock now) s l a v h = clock-Implements now s l v.distinct h
  handle-Implements halt s l a v h = halt-Implements s l h
