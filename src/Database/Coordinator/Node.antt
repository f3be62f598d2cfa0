-- ===== src/Database/Coordinator/Node.antt =====
-- One server through one transaction, seen by the coordinator's client.
use distributed_systems_go.Base.{
  ◌≡◌, refl, ◌∙◌, sym, ap, Bool, true, false, inl, inr, Bool-cases, [], none, arith, if◌then◌else◌,
  Text, text, is_empty, Result, ok,
}
use distributed_systems_go.Base.Table.{lookup}
use distributed_systems_go.Types.{Time, SensorData}
use distributed_systems_go.Rpc.{TimestampPb, KeepsTime, OperationResponse, PrepareResponse}
use distributed_systems_go.Database.Service.{
  Service, add_data_point_internal, succeeded, prepare_transaction as serve_prepare,
  commit_transaction as serve_commit, abort_transaction as serve_abort,
}
use distributed_systems_go.Database.Service.Request.{run}
use distributed_systems_go.Database.Service.Participant.{
  id_request, prepared, prepare_request, prepare-new, prepare-refused, prepare-accepted,
  commit-prepare, abort-prepare, points-abort, points-prepare,
}
use distributed_systems_go.Database.Client.{
  Fate, delivered, lost_request, lost_reply, to_request, prepare_transaction, commit_transaction,
  abort_transaction,
}
use distributed_systems_go.Database.Client.RoundTrip.{proto_to_sensor_data-to_request}
use distributed_systems_go.Database.Coordinator.{Call, arrive, voted_yes}

-- The handler ran, or not.
abbrev pub reached : Fate → Bool
reached (lost_request _) = false
reached _ = true

-- A call that reaches the server runs the handler, whether its answer arrives or not.
abort_transaction-serve :
    (g : Fate) (id : Text) (s : Service)
    → reached g ≡ true
    → (abort_transaction g id s).0 ≡ (serve_abort (id_request id) s).0
unfolding abort_transaction
abort_transaction-serve delivered id s r = refl
abort_transaction-serve (lost_request e) id s r = cc
abort_transaction-serve (lost_reply e) id s r = refl

commit_transaction-serve :
    (g : Fate) (id : Text) (s : Service)
    → reached g ≡ true
    → (commit_transaction g id s).0 ≡ (serve_commit (id_request id) s).0
unfolding commit_transaction
commit_transaction-serve delivered id s r = refl
commit_transaction-serve (lost_request e) id s r = cc
commit_transaction-serve (lost_reply e) id s r = refl

-- A commit that does not reach the server changes nothing there.
pub commit_transaction-lost :
    (g : Fate) (id : Text) (s : Service) → reached g ≡ false → (commit_transaction g id s).0 ≡ s
unfolding commit_transaction
commit_transaction-lost delivered id s r = cc
commit_transaction-lost (lost_request e) id s r = refl
commit_transaction-lost (lost_reply e) id s r = cc

-- A commit without an error was answered.
pub commit_transaction-delivered :
    (g : Fate) (id : Text) (s : Service) → (commit_transaction g id s).1 ≡ ok tt → g ≡ delivered
unfolding commit_transaction
commit_transaction-delivered delivered id s h = refl
commit_transaction-delivered (lost_request e) id s h = cc
commit_transaction-delivered (lost_reply e) id s h = cc

-- No abort, answered or not, changes the readings.
pub points-abort_transaction :
    (g : Fate) (id : Text) (s : Service) → (abort_transaction g id s).0.points ≡ s.points
unfolding abort_transaction
points-abort_transaction delivered id s = points-abort (id_request id) s
points-abort_transaction (lost_request e) id s = refl
points-abort_transaction (lost_reply e) id s = points-abort (id_request id) s

serve_abort-absent :
    (id : Text) (s : Service)
    → lookup id s.prepared_txns ≡ none
    → (serve_abort (id_request id) s).0 ≡ s
serve_abort-absent id s absent = unfold serve_abort in rw absent (ground arith)

module _ (pb : TimestampPb) where
  open pb use {Timestamp}

  -- With no requests of others the call finds the server as it was.
  pub arrive-alone : (c : Call Timestamp) (s : Service) → c.meanwhile ≡ [] → arrive pb c s ≡ s
  unfolding run
  arrive-alone c s h = rw h

  -- what the client's prepare leaves on a server that votes yes
  abbrev pub voting : Time → Time → Text → SensorData → Service → Service
  voting now when id d s = prepared pb now when id (to_request pb d) s

  pub voted_yes-inv :
      (f : Fate) (now when : Time) (id : Text) (d : SensorData) (s : Service)
      → voted_yes (prepare_transaction pb f now when id d s).1 ≡ true
      → (is_empty id ≡ false)
        × (is_empty d.sensor_id ≡ false)
        × (lookup id s.prepared_txns ≡ none)
        × ((prepare_transaction pb f now when id d s).0 ≡ voting now when id d s)
  unfolding prepare_transaction
  voted_yes-inv delivered now when id d s h = prepare-accepted pb now when id (to_request pb d) s h
  voted_yes-inv (lost_request e) now when id d s h = cc
  voted_yes-inv (lost_reply e) now when id d s h = cc

  -- An answered prepare of a new transaction is a vote for it.
  pub prepare-voting :
      (now when : Time) (id : Text) (d : SensorData) (s : Service)
      → is_empty id ≡ false
      → is_empty d.sensor_id ≡ false
      → lookup id s.prepared_txns ≡ none
      → (voted_yes (prepare_transaction pb delivered now when id d s).1 ≡ true)
        × ((prepare_transaction pb delivered now when id d s).0 ≡ voting now when id d s)
  unfolding prepare_transaction
  prepare-voting now when id d s named sensor absent =
      rw (prepare-new pb now when id (to_request pb d) s named sensor absent) (refl, refl)

  -- No prepare, answered or not, changes the readings.
  pub points-prepare_transaction :
      (f : Fate) (now when : Time) (id : Text) (d : SensorData) (s : Service)
      → (prepare_transaction pb f now when id d s).0.points ≡ s.points
  unfolding prepare_transaction
  points-prepare_transaction delivered now when id d s = points-prepare pb now when _ s
  points-prepare_transaction (lost_request e) now when id d s = refl
  points-prepare_transaction (lost_reply e) now when id d s = points-prepare pb now when _ s

  serve_abort-serve_prepare :
      (now when : Time) (id : Text) (d : SensorData) (s : Service)
      → lookup id s.prepared_txns ≡ none
      → (serve_abort
          (id_request id)
          (serve_prepare pb now when (prepare_request pb id (to_request pb d)) s).0).0
        ≡ s
  serve_abort-serve_prepare now when id d s absent =
      elim (Bool-cases
        (serve_prepare pb now when (prepare_request pb id (to_request pb d)) s).1.success) [
          | inl accepted ↦
              let (named, sensor, _, _) =
                prepare-accepted pb now when id (to_request pb d) s accepted in
              ap (λ (p : Service × OperationResponse). p.0)
                (abort-prepare pb now when id (to_request pb d) s named sensor absent)
          | inr refused ↦
              rw (prepare-refused pb now when (prepare_request pb id (to_request pb d)) s refused)
                (serve_abort-absent id s absent)
        ]

  -- Whatever became of the prepare of a new transaction, an abort that arrives restores the server.
  pub abort-prepare_transaction :
      (f g : Fate) (now when : Time) (id : Text) (d : SensorData) (s : Service)
      → reached g ≡ true
      → lookup id s.prepared_txns ≡ none
      → (abort_transaction g id (prepare_transaction pb f now when id d s).0).0 ≡ s
  unfolding prepare_transaction
  abort-prepare_transaction delivered g now when id d s r absent =
      abort_transaction-serve g id _ r ∙ serve_abort-serve_prepare now when id d s absent
  abort-prepare_transaction (lost_request e) g now when id d s r absent =
      abort_transaction-serve g id s r ∙ serve_abort-absent id s absent
  abort-prepare_transaction (lost_reply e) g now when id d s r absent =
      abort_transaction-serve g id _ r ∙ serve_abort-serve_prepare now when id d s absent

  module _ (keeps : KeepsTime pb) where
    serve_commit-voting :
        (now when : Time) (id : Text) (d : SensorData) (s : Service)
        → is_empty id ≡ false
        → is_empty d.sensor_id ≡ false
        → lookup id s.prepared_txns ≡ none
        → serve_commit (id_request id) (voting now when id d s)
          ≡ (add_data_point_internal d s, succeeded (text "Transaction committed successfully"))
    serve_commit-voting now when id d s named sensor absent =
        rw
          (← ap (λ (p : Service × PrepareResponse). p.0)
            (prepare-new pb now when id (to_request pb d) s named sensor absent))
          (commit-prepare pb now when id (to_request pb d) s named sensor absent
            ∙ rw (proto_to_sensor_data-to_request pb keeps now d))

    -- An answered commit at a server that voted succeeds.
    pub commit_transaction-ok :
        (now when : Time) (id : Text) (d : SensorData) (s : Service)
        → is_empty id ≡ false
        → is_empty d.sensor_id ≡ false
        → lookup id s.prepared_txns ≡ none
        → commit_transaction delivered id (voting now when id d s)
          ≡ (add_data_point_internal d s, ok tt)
    unfolding commit_transaction
    commit_transaction-ok now when id d s named sensor absent =
        rw (serve_commit-voting now when id d s named sensor absent)

    -- A commit that arrives at a server that voted stores the reading, and nothing else remains.
    pub commit_transaction-voting :
        (g : Fate) (now when : Time) (id : Text) (d : SensorData) (s : Service)
        → reached g ≡ true
        → is_empty id ≡ false
        → is_empty d.sensor_id ≡ false
        → lookup id s.prepared_txns ≡ none
        → (commit_transaction g id (voting now when id d s)).0 ≡ add_data_point_internal d s
    commit_transaction-voting g now when id d s r named sensor absent =
        commit_transaction-serve g id _ r
        ∙ ap (λ (p : Service × OperationResponse). p.0)
            (serve_commit-voting now when id d s named sensor absent)

    -- what a commit, lost or not, leaves on a server that voted
    pub commit_transaction-settles :
        (g : Fate) (now when : Time) (id : Text) (d : SensorData) (s : Service)
        → is_empty id ≡ false
        → is_empty d.sensor_id ≡ false
        → lookup id s.prepared_txns ≡ none
        → (commit_transaction g id (voting now when id d s)).0
          ≡ (if reached g then add_data_point_internal d s else voting now when id d s)
    commit_transaction-settles g now when id d s named sensor absent =
        elim (Bool-cases (reached g)) [
          | inl r ↦ rw r (commit_transaction-voting g now when id d s r named sensor absent)
          | inr r ↦ rw r (commit_transaction-lost g id (voting now when id d s) r)
        ]

    -- After a vote and a commit without an error the reading is stored.
    pub commit_transaction-stored :
        (f g : Fate) (now when : Time) (id : Text) (d : SensorData) (s t s' : Service)
        → voted_yes (prepare_transaction pb f now when id d s).1 ≡ true
        → t ≡ (prepare_transaction pb f now when id d s).0
        → commit_transaction g id t ≡ (s', ok tt)
        → s' ≡ add_data_point_internal d s
    commit_transaction-stored f g now when id d s t s' vote left h =
        let (named, sensor, absent, voted) = voted_yes-inv f now when id d s vote in
        let answered : g ≡ delivered =
          commit_transaction-delivered g id t (ap (λ (p : Service × Result (Unit {0})). p.1) h) in
        ap (λ (p : Service × Result (Unit {0})). p.0)
          (sym h
            ∙ ap (λ k. commit_transaction k id t) answered
            ∙ ap (commit_transaction delivered id) (left ∙ voted)
            ∙ commit_transaction-ok now when id d s named sensor absent)
