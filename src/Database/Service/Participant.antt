-- ===== src/Database/Service/Participant.antt =====
-- The participant's side of Two-Phase Commit: what prepare, commit and abort do to one server.
use distributed_systems_go.Base.{
  ◌≡◌, ◌∙◌, true, false, [], ◌∷◌, ◌++◌, none, some, arith, Text, text, is_empty, eq_text_refl,
}
use distributed_systems_go.Base.Table.{lookup, insert, erase, lookup-insert, erase-insert}
use distributed_systems_go.Types.{Time}
use distributed_systems_go.Rpc.{TimestampPb, SensorDataRequest, TransactionRequest, TransactionId}
use distributed_systems_go.Database.Service.{
  Service, TransactionState, add_data_point_internal, trim, not_prepared, commit_transaction,
  abort_transaction, failed, succeeded, proto_to_sensor_data, prepare_transaction,
}

-- `&pb.TransactionId{TransactionId: id}`
abbrev pub id_request : Text → TransactionId
id_request id = record { transaction_id = id }

-- Commit and abort on a server that has the transaction.
pub commit-found :
    (id : Text) (t : TransactionState) (s : Service)
    → is_empty id ≡ false
    → lookup id s.prepared_txns ≡ some t
    → commit_transaction (id_request id) s ≡ (
      record s {
        points = trim s.max_data_points (s.points ++ t.sensor_data ∷ []);
        prepared_txns = erase id s.prepared_txns;
      },
      succeeded (text "Transaction committed successfully"),
    )
unfolding commit_transaction add_data_point_internal
commit-found id t s named e = rw (named, e)

pub commit-absent :
    (id : Text) (s : Service)
    → is_empty id ≡ false
    → lookup id s.prepared_txns ≡ none
    → commit_transaction (id_request id) s ≡ (s, failed (not_prepared id))
unfolding commit_transaction
commit-absent id s named e = rw (named, e)

pub abort-found :
    (id : Text) (t : TransactionState) (s : Service)
    → is_empty id ≡ false
    → lookup id s.prepared_txns ≡ some t
    → abort_transaction (id_request id) s ≡ (
      record s { prepared_txns = erase id s.prepared_txns },
      succeeded (text "Transaction aborted successfully"),
    )
unfolding abort_transaction
abort-found id t s named e = rw (named, e)

pub abort-absent :
    (id : Text) (s : Service)
    → is_empty id ≡ false
    → lookup id s.prepared_txns ≡ none
    → abort_transaction (id_request id) s ≡ (s, failed (not_prepared id))
unfolding abort_transaction
abort-absent id s named e = rw (named, e)

-- An abort never touches the stored readings.
pub points-abort :
    (req : TransactionId) (s : Service) → (abort_transaction req s).0.points ≡ s.points
unfolding abort_transaction
points-abort req s = ground arith

-- A commit that is refused changes nothing.
pub commit-refused :
    (req : TransactionId) (s : Service)
    → (commit_transaction req s).1.success ≡ false
    → (commit_transaction req s).0 ≡ s
unfolding commit_transaction
commit-refused req s h = ground arith

module _ (pb : TimestampPb) where
  open pb use {Timestamp}

  -- what `PrepareTransaction` stores
  abbrev pub prepared : Time → Time → Text → SensorDataRequest Timestamp → Service → Service
  prepared now when id d s = record s {
    prepared_txns =
        insert id
          (record {
            transaction_id = id;
            sensor_data = proto_to_sensor_data pb now d;
            prepared_at = when;
          })
          s.prepared_txns;
  }

  abbrev pub prepare_request : Text → SensorDataRequest Timestamp → TransactionRequest Timestamp
  prepare_request id d = record { transaction_id = id; sensor_data = some d }

  pub prepare-new :
      (now when : Time) (id : Text) (d : SensorDataRequest Timestamp) (s : Service)
      → is_empty id ≡ false
      → is_empty d.sensor_id ≡ false
      → lookup id s.prepared_txns ≡ none
      → prepare_transaction pb now when (prepare_request id d) s ≡ (
        prepared now when id d s,
        record {
          success = true;
          message = text "Transaction prepared successfully";
          transaction_id = id;
        },
      )
  unfolding prepare_transaction
  prepare-new now when id d s named sensor absent = rw (named, sensor, absent)

  -- A prepare never touches the stored readings.
  pub points-prepare :
      (now when : Time) (req : TransactionRequest Timestamp) (s : Service)
      → (prepare_transaction pb now when req s).0.points ≡ s.points
  unfolding prepare_transaction
  points-prepare now when req s = ground arith

  -- A prepare that is refused changes nothing.
  pub prepare-refused :
      (now when : Time) (req : TransactionRequest Timestamp) (s : Service)
      → (prepare_transaction pb now when req s).1.success ≡ false
      → (prepare_transaction pb now when req s).0 ≡ s
  unfolding prepare_transaction
  prepare-refused now when req s h = ground arith

  -- What a prepare that succeeds requires, and what it leaves.
  pub prepare-accepted :
      (now when : Time) (id : Text) (d : SensorDataRequest Timestamp) (s : Service)
      → (prepare_transaction pb now when (prepare_request id d) s).1.success ≡ true
      → (is_empty id ≡ false)
        × (is_empty d.sensor_id ≡ false)
        × (lookup id s.prepared_txns ≡ none)
        × ((prepare_transaction pb now when (prepare_request id d) s).0 ≡ prepared now when id d s)
  unfolding prepare_transaction
  prepare-accepted now when id d s h = ground arith

  module _ (now when : Time) (id : Text) (d : SensorDataRequest Timestamp) (s : Service)
      (named : is_empty id ≡ false) (sensor : is_empty d.sensor_id ≡ false)
      (absent : lookup id s.prepared_txns ≡ none) where
    lookup-prepared :
        lookup id (prepared now when id d s).prepared_txns
        ≡ some (record {
          transaction_id = id;
          sensor_data = proto_to_sensor_data pb now d;
          prepared_at = when;
        })
    lookup-prepared = lookup-insert id id _ s.prepared_txns ∙ rw (eq_text_refl id)

    -- Preparing a new transaction and committing it stores its reading, once and at the end, cut
    -- to the limit, and leaves the other prepared transactions as they were.
    pub commit-prepare :
        commit_transaction
          (id_request id)
          (prepare_transaction pb now when (prepare_request id d) s).0
        ≡ (
          add_data_point_internal (proto_to_sensor_data pb now d) s,
          succeeded (text "Transaction committed successfully"),
        )
    unfolding add_data_point_internal
    commit-prepare = rw (prepare-new now when id d s named sensor absent) (
        commit-found id _ (prepared now when id d s) named lookup-prepared
        ∙ rw (erase-insert id _ s.prepared_txns absent))

    -- Preparing a new transaction and aborting it gives the server's state back.
    pub abort-prepare :
        abort_transaction
          (id_request id)
          (prepare_transaction pb now when (prepare_request id d) s).0
        ≡ (s, succeeded (text "Transaction aborted successfully"))
    abort-prepare = rw (prepare-new now when id d s named sensor absent) (
        abort-found id _ (prepared now when id d s) named lookup-prepared
        ∙ rw (erase-insert id _ s.prepared_txns absent))
