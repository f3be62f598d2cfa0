-- ===== src/Database/Coordinator/Rollback.antt =====
-- Runs of the coordinator in which some server does not vote yes.
use distributed_systems_go.Base.{
  ℕ, ◌+◌, ◌≤◌, ◌<◌, ◌≡◌, ◌≢◌, refl, ◌∙◌, ap, ap₂, Bool, true, false, inl, inr, Bool-cases, List, [],
  ◌∷◌, map, length, Option, none, arith, Text, err,
}
use distributed_systems_go.Types.{SensorData}
use distributed_systems_go.Rpc.{TimestampPb}
use distributed_systems_go.Database.Service.{Service}
use distributed_systems_go.Database.Client.{
  Fate, delivered, lost_request, lost_reply, prepare_transaction, abort_transaction,
}
use distributed_systems_go.Database.Coordinator.{
  Call, Plan, arrive, later_error, voted_yes, all_prepared, prepare_loop, abort_loop, abort_all,
  abort_error, add_data_point_with_two_phase_commit,
}
use distributed_systems_go.Database.Coordinator.Node.{
  reached, arrive-alone, points-prepare_transaction, points-abort_transaction,
  abort-prepare_transaction,
}
use distributed_systems_go.Database.Coordinator.Commit.{Undisturbed, IsNew}

-- Every call reaches its server; answers may get lost.
abbrev pub Arriving : {T : Type 0} → (ℕ → Call T) → Type 0
Arriving calls = (i : ℕ) → reached (calls i).fate ≡ true

-- the stored readings of each server
abbrev pub readings : List Service → List (List SensorData)
readings = map (λ (s : Service). s.points)

module _ (pb : TimestampPb) where
  open pb use {Timestamp}

  prepare_loop-readings :
      (calls : ℕ → Call Timestamp) (i : ℕ) (id : Text) (d : SensorData) (ss : List Service)
      → Undisturbed calls
      → readings (prepare_loop pb calls i id d ss).0 ≡ readings ss
  unfolding prepare_loop
  prepare_loop-readings calls i id d [] alone = refl
  prepare_loop-readings calls i id d (s ∷ ss) alone =
      let c = calls i in
      ap₂ ◌∷◌
        (points-prepare_transaction pb c.fate c.now c.when id d (arrive pb c s)
          ∙ ap (λ (t : Service). t.points) (arrive-alone pb c s (alone i)))
        (prepare_loop-readings calls (i + 1) id d ss alone)

  abort_loop-readings :
      (calls : ℕ → Call Timestamp) (i : ℕ) (id : Text) (last : Option Text) (ss : List Service)
      → Undisturbed calls
      → readings (abort_loop pb calls i id last ss).0 ≡ readings ss
  unfolding abort_loop
  abort_loop-readings calls i id last [] alone = refl
  abort_loop-readings calls i id last (s ∷ ss) alone =
      let c = calls i in
      let r = (abort_transaction c.fate id (arrive pb c s)).1 in
      ap₂ ◌∷◌
        (points-abort_transaction c.fate id (arrive pb c s)
          ∙ ap (λ (t : Service). t.points) (arrive-alone pb c s (alone i)))
        (abort_loop-readings calls (i + 1) id (later_error r last) ss alone)

  -- If some server does not vote yes and nobody interferes, then no server's readings change,
  -- whatever calls get lost, and the coordinator returns an error.
  pub refused-readings :
      (plan : Plan Timestamp) (id : Text) (d : SensorData) (ss : List Service)
      → Undisturbed plan.prepares
      → Undisturbed plan.aborts
      → all_prepared (prepare_loop pb plan.prepares 0 id d ss).1 ≡ false
      → let (ss', result) = add_data_point_with_two_phase_commit pb plan id d ss in
        (readings ss' ≡ readings ss) × ((e : Text) × (result ≡ err e))
  unfolding add_data_point_with_two_phase_commit abort_all
  refused-readings plan id d ss alone_p alone_a refused =
      let prepared = (prepare_loop pb plan.prepares 0 id d ss).0 in
      rw refused (
        abort_loop-readings plan.aborts 0 id none prepared alone_a
            ∙ prepare_loop-readings plan.prepares 0 id d ss alone_p,
        (abort_error id (abort_loop pb plan.aborts 0 id none prepared).1, refl),
      )

  abort_loop-prepare_loop :
      (plan : Plan Timestamp) (i : ℕ) (id : Text) (d : SensorData) (last : Option Text)
      (ss : List Service)
      → Undisturbed plan.prepares
      → Undisturbed plan.aborts
      → Arriving plan.aborts
      → IsNew id ss
      → (abort_loop pb plan.aborts i id last (prepare_loop pb plan.prepares i id d ss).0).0 ≡ ss
  unfolding abort_loop prepare_loop
  abort_loop-prepare_loop plan i id d last [] alone_p alone_a arriving fresh = refl
  abort_loop-prepare_loop plan i id d last (s ∷ ss) alone_p alone_a arriving fresh =
      let p = plan.prepares i in
      let a = plan.aborts i in
      let t = (prepare_transaction pb p.fate p.now p.when id d (arrive pb p s)).0 in
      let r = (abort_transaction a.fate id (arrive pb a t)).1 in
      ap₂ ◌∷◌
        (ap (λ u. (abort_transaction a.fate id u).0)
            (arrive-alone pb a t (alone_a i)
              ∙ ap (λ u. (prepare_transaction pb p.fate p.now p.when id d u).0)
                  (arrive-alone pb p s (alone_p i)))
          ∙ abort-prepare_transaction pb p.fate a.fate p.now p.when id d s (arriving i) fresh.0)
        (abort_loop-prepare_loop plan (i + 1) id d (later_error r last) ss alone_p alone_a arriving
          fresh.1)

  -- If some server does not vote yes, nobody interferes, no server knew the transaction, and the
  -- aborts reach the servers, then every server is back in its old state.
  pub refused-restored :
      (plan : Plan Timestamp) (id : Text) (d : SensorData) (ss : List Service)
      → Undisturbed plan.prepares
      → Undisturbed plan.aborts
      → Arriving plan.aborts
      → IsNew id ss
      → all_prepared (prepare_loop pb plan.prepares 0 id d ss).1 ≡ false
      → (add_data_point_with_two_phase_commit pb plan id d ss).0 ≡ ss
  unfolding add_data_point_with_two_phase_commit abort_all
  refused-restored plan id d ss alone_p alone_a arriving fresh refused =
      rw refused (abort_loop-prepare_loop plan 0 id d none ss alone_p alone_a arriving fresh)

  voted_yes-delivered :
      (f : Fate) (c : Call Timestamp) (id : Text) (d : SensorData) (s : Service)
      → voted_yes (prepare_transaction pb f c.now c.when id d s).1 ≡ true
      → f ≡ delivered
  unfolding prepare_transaction
  voted_yes-delivered delivered c id d s h = refl
  voted_yes-delivered (lost_request e) c id d s h = cc
  voted_yes-delivered (lost_reply e) c id d s h = cc

  unanswered-refused :
      (calls : ℕ → Call Timestamp) (i j : ℕ) (id : Text) (d : SensorData) (ss : List Service)
      → i ≤ j
      → j < i + length ss
      → (calls j).fate ≢ delivered
      → all_prepared (prepare_loop pb calls i id d ss).1 ≡ false
  unfolding prepare_loop all_prepared
  unanswered-refused calls i j id d [] low high lost = absurd (omega arith)
  unanswered-refused calls i j id d (s ∷ ss) low high lost =
      let c = calls i in
      let vote : Bool =
        voted_yes (prepare_transaction pb c.fate c.now c.when id d (arrive pb c s)).1 in
      elim (Bool-cases vote) [
        | inl good ↦
            let answered : c.fate ≡ delivered =
              voted_yes-delivered c.fate c id d (arrive pb c s) good in
            let ne : i ≢ j = λ (same : i ≡ j). lost (rw same at answered) in
            rw (good, unanswered-refused calls (i + 1) j id d ss (omega arith) (omega arith) lost)
        | inr bad ↦ rw bad
      ]

  -- One server that does not answer its prepare makes the coordinator give up: it returns an error
  -- and, if nobody interferes, no server stores the reading, however many of them are available.
  pub unanswered-readings :
      (plan : Plan Timestamp) (j : ℕ) (id : Text) (d : SensorData) (ss : List Service)
      → Undisturbed plan.prepares
      → Undisturbed plan.aborts
      → j < length ss
      → (plan.prepares j).fate ≢ delivered
      → let (ss', result) = add_data_point_with_two_phase_commit pb plan id d ss in
        (readings ss' ≡ readings ss) × ((e : Text) × (result ≡ err e))
  unanswered-readings plan j id d ss alone_p alone_a inside lost =
      refused-readings plan id d ss alone_p alone_a
        (unanswered-refused plan.prepares 0 j id d ss (omega arith) (omega arith) lost)
