-- ===== src/Database/Coordinator/Commit.antt =====
-- Runs of the coordinator in which every server votes yes.
use distributed_systems_go.Base.{
  ℕ, ◌+◌, ◌≡◌, refl, ◌∙◌, ap, ap₂, &&-true, true, false, List, [], ◌∷◌, map, Option, none,
  if◌then◌else◌, Text, is_empty, ok, All,
}
use distributed_systems_go.Base.Table.{lookup}
use distributed_systems_go.Types.{SensorData}
use distributed_systems_go.Rpc.{TimestampPb, KeepsTime}
use distributed_systems_go.Database.Service.{Service, add_data_point_internal}
use distributed_systems_go.Database.Client.{delivered, commit_transaction}
use distributed_systems_go.Database.Coordinator.{
  Call, Plan, arrive, count_ok, later_error, all_prepared, prepare_loop, commit_loop, commit_all,
  add_data_point_with_two_phase_commit,
}
use distributed_systems_go.Database.Coordinator.Node.{
  reached, arrive-alone, voting, prepare-voting, commit_transaction-ok, commit_transaction-settles,
  commit_transaction-stored,
}
use distributed_systems_go.Database.Coordinator.Decision.{Committed, ok-Committed}

-- No other user's request reaches a server between the coordinator's calls.
abbrev pub Undisturbed : {T : Type 0} → (ℕ → Call T) → Type 0
Undisturbed calls = (i : ℕ) → (calls i).meanwhile ≡ []

abbrev pub Answered : {T : Type 0} → (ℕ → Call T) → Type 0
Answered calls = (i : ℕ) → (calls i).fate ≡ delivered

-- No server holds the transaction yet.
abbrev pub IsNew : Text → List Service → Type 0
IsNew id = All (λ s. lookup id s.prepared_txns ≡ none)

module _ (pb : TimestampPb) where
  open pb use {Timestamp}

  -- the servers once every one has voted yes
  abbrev pub voted_all : (ℕ → Call Timestamp) → ℕ → Text → SensorData → List Service → List Service
  voted_all calls i id d [] = []
  voted_all calls i id d (s ∷ ss) =
      voting pb (calls i).now (calls i).when id d s ∷ voted_all calls (i + 1) id d ss

  -- a server that the commit reaches has stored the reading; any other still holds its vote
  abbrev pub settled : Plan Timestamp → ℕ → Text → SensorData → List Service → List Service
  settled plan i id d [] = []
  settled plan i id d (s ∷ ss) =
      (if reached (plan.commits i).fate
        then add_data_point_internal d s
        else voting pb (plan.prepares i).now (plan.prepares i).when id d s)
      ∷ settled plan (i + 1) id d ss

  prepare_loop-voted_all :
      (calls : ℕ → Call Timestamp) (i : ℕ) (id : Text) (d : SensorData) (ss : List Service)
      → Undisturbed calls
      → Answered calls
      → is_empty id ≡ false
      → is_empty d.sensor_id ≡ false
      → IsNew id ss
      → ((prepare_loop pb calls i id d ss).0 ≡ voted_all calls i id d ss)
        × (all_prepared (prepare_loop pb calls i id d ss).1 ≡ true)
  unfolding prepare_loop all_prepared
  prepare_loop-voted_all calls i id d [] alone answered named sensor fresh = (refl, refl)
  prepare_loop-voted_all calls i id d (s ∷ ss) alone answered named sensor fresh =
      let (vote, left) =
        prepare-voting pb (calls i).now (calls i).when id d s named sensor fresh.0 in
      let (rest, votes) =
        prepare_loop-voted_all calls (i + 1) id d ss alone answered named sensor fresh.1 in
      rw (arrive-alone pb (calls i) s (alone i), answered i, vote, left, rest, votes) (refl, refl)

  module _ (keeps : KeepsTime pb) where
    commit_loop-settled :
        (plan : Plan Timestamp) (i : ℕ) (id : Text) (d : SensorData) (n : ℕ) (last : Option Text)
        (ss : List Service)
        → Undisturbed plan.commits
        → is_empty id ≡ false
        → is_empty d.sensor_id ≡ false
        → IsNew id ss
        → (commit_loop pb plan.commits i id n last (voted_all plan.prepares i id d ss)).0
          ≡ settled plan i id d ss
    unfolding commit_loop
    commit_loop-settled plan i id d n last [] alone named sensor fresh = refl
    commit_loop-settled plan i id d n last (s ∷ ss) alone named sensor fresh =
        let g = plan.commits i in
        let t = voting pb (plan.prepares i).now (plan.prepares i).when id d s in
        let r = (commit_transaction g.fate id (arrive pb g t)).1 in
        ap₂ ◌∷◌
          (ap (λ u. (commit_transaction g.fate id u).0) (arrive-alone pb g t (alone i))
            ∙ commit_transaction-settles pb keeps g.fate (plan.prepares i).now
                (plan.prepares i).when id d s named sensor fresh.0)
          (commit_loop-settled plan (i + 1) id d (count_ok r n) (later_error r last) ss alone named
            sensor fresh.1)

    -- A reading with a sensor id is written under a transaction id that is not empty and that no
    -- server holds. If every prepare is answered and nobody interferes, a server ends with the
    -- reading stored exactly if the commit reached it, and otherwise with its vote.
    pub prepared-settled :
        (plan : Plan Timestamp) (id : Text) (d : SensorData) (ss : List Service)
        → Undisturbed plan.prepares
        → Undisturbed plan.commits
        → Answered plan.prepares
        → is_empty id ≡ false
        → is_empty d.sensor_id ≡ false
        → IsNew id ss
        → (add_data_point_with_two_phase_commit pb plan id d ss).0 ≡ settled plan 0 id d ss
    unfolding add_data_point_with_two_phase_commit commit_all
    prepared-settled plan id d ss alone_p alone_c answered named sensor fresh =
        let (left, votes) =
          prepare_loop-voted_all plan.prepares 0 id d ss alone_p answered named sensor fresh in
        rw (votes, left) (commit_loop-settled plan 0 id d 0 none ss alone_c named sensor fresh)

    Committed-voted_all :
        (plan : Plan Timestamp) (i : ℕ) (id : Text) (d : SensorData) (ss : List Service)
        → Undisturbed plan.commits
        → Answered plan.commits
        → is_empty id ≡ false
        → is_empty d.sensor_id ≡ false
        → IsNew id ss
        → Committed pb plan.commits i id
            (voted_all plan.prepares i id d ss)
            (map (add_data_point_internal d) ss)
    Committed-voted_all plan i id d [] alone answered named sensor fresh = tt
    Committed-voted_all plan i id d (s ∷ ss) alone answered named sensor fresh =
        let p = plan.prepares i in
        (
          rw
              (
                arrive-alone pb (plan.commits i) (voting pb p.now p.when id d s) (alone i),
                answered i,
              )
              (commit_transaction-ok pb keeps p.now p.when id d s named sensor fresh.0),
          Committed-voted_all plan (i + 1) id d ss alone answered named sensor fresh.1,
        )

    -- If every call is answered and nobody interferes, a reading with a sensor id under a new
    -- transaction id is stored by every server, and the coordinator returns no error.
    pub reliable_ok :
        (plan : Plan Timestamp) (id : Text) (d : SensorData) (ss : List Service)
        → Undisturbed plan.prepares
        → Undisturbed plan.commits
        → Answered plan.prepares
        → Answered plan.commits
        → is_empty id ≡ false
        → is_empty d.sensor_id ≡ false
        → IsNew id ss
        → add_data_point_with_two_phase_commit pb plan id d ss
          ≡ (map (add_data_point_internal d) ss, ok tt)
    reliable_ok plan id d ss alone_p alone_c answered_p answered_c named sensor fresh =
        let (left, votes) =
          prepare_loop-voted_all plan.prepares 0 id d ss alone_p answered_p named sensor fresh in
        (ok-Committed pb plan id d ss _).1 (
          votes,
          rw left (Committed-voted_all plan 0 id d ss alone_c answered_c named sensor fresh),
        )

    yes-Committed-add :
        (plan : Plan Timestamp) (i : ℕ) (id : Text) (d : SensorData) (ss ss' : List Service)
        → Undisturbed plan.prepares
        → Undisturbed plan.commits
        → all_prepared (prepare_loop pb plan.prepares i id d ss).1 ≡ true
        → Committed pb plan.commits i id (prepare_loop pb plan.prepares i id d ss).0 ss'
        → ss' ≡ map (add_data_point_internal d) ss
    unfolding prepare_loop all_prepared
    yes-Committed-add plan i id d [] [] alone_p alone_c votes c = refl
    yes-Committed-add plan i id d [] (s' ∷ ss') alone_p alone_c votes c = absurd c
    yes-Committed-add plan i id d (s ∷ ss) [] alone_p alone_c votes c = absurd c
    yes-Committed-add plan i id d (s ∷ ss) (s' ∷ ss') alone_p alone_c votes c =
        let p = plan.prepares i in
        let (vote, others) = &&-true _ _ votes in
        ap₂ ◌∷◌
          (commit_transaction-stored pb keeps p.fate (plan.commits i).fate p.now p.when id d
              (arrive pb p s) _ s' vote (arrive-alone pb (plan.commits i) _ (alone_c i)) c.0
            ∙ ap (add_data_point_internal d) (arrive-alone pb p s (alone_p i)))
          (yes-Committed-add plan (i + 1) id d ss ss' alone_p alone_c others c.1)

    -- If nobody interferes and the coordinator returns no error, then every server has stored the
    -- reading exactly once and holds no trace of the transaction, whatever calls got lost.
    pub ok-stored :
        (plan : Plan Timestamp) (id : Text) (d : SensorData) (ss ss' : List Service)
        → Undisturbed plan.prepares
        → Undisturbed plan.commits
        → add_data_point_with_two_phase_commit pb plan id d ss ≡ (ss', ok tt)
        → ss' ≡ map (add_data_point_internal d) ss
    ok-stored plan id d ss ss' alone_p alone_c h =
        let (votes, c) = (ok-Committed pb plan id d ss ss').0 h in
        yes-Committed-add plan 0 id d ss ss' alone_p alone_c votes c
