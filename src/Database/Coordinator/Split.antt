-- ===== src/Database/Coordinator/Split.antt =====
-- Where the commit phase stops half-way. The coordinator does not repeat a commit, and a server
-- that misses it drops its vote once the vote is older than the time-out.
use distributed_systems_go.Base.{
  ◌≡◌, ◌≢◌, ◌∙◌, ap, true, false, List, [], ◌∷◌, none, Text, is_empty, eq_text_refl, Result, ok,
}
use distributed_systems_go.Base.Table.{Table, lookup, lookup-insert, IsDistinct, insert-IsDistinct}
use distributed_systems_go.Types.{Time, SensorData}
use distributed_systems_go.Rpc.{TimestampPb, KeepsTime}
use distributed_systems_go.Database.Service.{
  Service, TransactionState, add_data_point_internal, proto_to_sensor_data, is_expired, tick,
  cleanup_expired_transactions,
}
use distributed_systems_go.Database.Service.Expiry.{fresh, lookup-remove_expired_self}
use distributed_systems_go.Database.Client.{delivered, to_request}
use distributed_systems_go.Database.Coordinator.{
  Plan, prepare_loop, add_data_point_with_two_phase_commit,
}
use distributed_systems_go.Database.Coordinator.Node.{reached, voting, commit_transaction-delivered}
use distributed_systems_go.Database.Coordinator.Decision.{Committed, ok-Committed}
use distributed_systems_go.Database.Coordinator.Commit.{
  Undisturbed, Answered, IsNew, settled, prepared-settled,
}

module _ (pb : TimestampPb) where
  open pb use {Timestamp}

  -- the entry that a vote leaves on a server
  abbrev pub vote_entry : Time → Time → Text → SensorData → TransactionState
  vote_entry now when id d = record {
    transaction_id = id;
    sensor_data = proto_to_sensor_data pb now (to_request pb d);
    prepared_at = when;
  }

  -- A vote that has outlived the time-out is gone after the next tick, and so is its reading.
  pub tick-voting :
      (now when tock : Time) (id : Text) (d : SensorData) (s : Service)
      → IsDistinct s.prepared_txns
      → s.cleaning ≡ true
      → is_expired tock s.txn_timeout (vote_entry now when id d) ≡ true
      → ((tick tock (voting pb now when id d s)).points ≡ s.points)
        × (lookup id (tick tock (voting pb now when id d s)).prepared_txns ≡ none)
  unfolding tick cleanup_expired_transactions
  tick-voting now when tock id d s distinct on old =
      let m : Table TransactionState = (voting pb now when id d s).prepared_txns in
      (
        rw on,
        rw on (
            lookup-remove_expired_self tock s.txn_timeout id m
              (insert-IsDistinct id (vote_entry now when id d) s.prepared_txns distinct)
            ∙ rw (lookup-insert, eq_text_refl id, old)),
      )

  unanswered_commit :
      (plan : Plan Timestamp) (id : Text) (d : SensorData) (a b : Service)
      → reached (plan.commits 1).fate ≡ false
      → (add_data_point_with_two_phase_commit pb plan id d (a ∷ b ∷ [])).1 ≢ ok tt
  unfolding prepare_loop
  unanswered_commit plan id d a b lost h =
      let x = add_data_point_with_two_phase_commit pb plan id d (a ∷ b ∷ []) in
      no_answer x.0 ((ok-Committed pb plan id d (a ∷ b ∷ []) x.0).0 (ap (λ r. (x.0, r)) h)).1
    where
      no_answer :
          (ss' : List Service)
          → Committed pb plan.commits 0 id (prepare_loop pb plan.prepares 0 id d (a ∷ b ∷ [])).0 ss'
          → ⊥
      no_answer [] c = c
      no_answer (s ∷ []) c = c.1
      no_answer (s ∷ t ∷ ss') c =
          let answered : (plan.commits 1).fate ≡ delivered =
            commit_transaction-delivered (plan.commits 1).fate id _
              (ap (λ (p : Service × Result (Unit {0})). p.1) c.1.0) in
          cc (lost, ap reached answered)

  module _ (keeps : KeepsTime pb) where
    -- A reading with a sensor id is written to two servers under a transaction id that is not
    -- empty and that neither holds, every prepare is answered, nobody interferes, and the commit
    -- reaches only the first. Then the first has stored the reading and the second has not, the
    -- coordinator returns an error, and after a tick beyond the time-out the second server, whose
    -- clean-up runs, has lost the reading for good.
    pub split_commit :
        (plan : Plan Timestamp) (id : Text) (d : SensorData) (a b : Service) (tock : Time)
        → Undisturbed plan.prepares
        → Undisturbed plan.commits
        → Answered plan.prepares
        → is_empty id ≡ false
        → is_empty d.sensor_id ≡ false
        → IsNew id (a ∷ b ∷ [])
        → reached (plan.commits 0).fate ≡ true
        → reached (plan.commits 1).fate ≡ false
        → IsDistinct b.prepared_txns
        → b.cleaning ≡ true
        → is_expired tock b.txn_timeout
            (vote_entry (plan.prepares 1).now (plan.prepares 1).when id d)
          ≡ true
        → let (ss', result) = add_data_point_with_two_phase_commit pb plan id d (a ∷ b ∷ []) in
          let b' = voting pb (plan.prepares 1).now (plan.prepares 1).when id d b in
          (ss' ≡ add_data_point_internal d a ∷ b' ∷ [])
          × (result ≢ ok tt)
          × ((tick tock b').points ≡ b.points)
          × (lookup id (tick tock b').prepared_txns ≡ none)
    split_commit plan id d a b tock alone_p alone_c answered named sensor fresh there lost distinct
          on old =
        let nodes : (add_data_point_with_two_phase_commit pb plan id d (a ∷ b ∷ [])).0
            ≡ settled pb plan 0 id d (a ∷ b ∷ []) =
          prepared-settled pb keeps plan id d (a ∷ b ∷ []) alone_p alone_c answered named sensor
            fresh in
        let p = plan.prepares 1 in
        let (same_points, gone) = tick-voting p.now p.when tock id d b distinct on old in
        (nodes ∙ rw (there, lost), unanswered_commit plan id d a b lost, same_points, gone)
