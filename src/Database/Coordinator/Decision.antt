-- ===== src/Database/Coordinator/Decision.antt =====
-- What a return value of the coordinator tells about the calls that it made, whatever the network
-- and the other users of the servers did.
use distributed_systems_go.Base.{
  ℕ, suc, ◌+◌, ◌≤◌, ◌≡◌, ◌≢◌, ◌↔◌, ap, true, inl, inr, Bool-cases, List, [], ◌∷◌, Option, none,
  arith, ◌==◌, ==_iff, length, Text, Result, ok, err, Result-cases,
}
use distributed_systems_go.Types.{SensorData}
use distributed_systems_go.Rpc.{TimestampPb}
use distributed_systems_go.Database.Service.{Service}
use distributed_systems_go.Database.Client.{commit_transaction}
use distributed_systems_go.Database.Coordinator.{
  Call, Plan, arrive, count_ok, later_error, all_prepared, prepare_loop, commit_loop, commit_all,
  abort_all, add_data_point_with_two_phase_commit,
}

-- the servers afterwards, and the error
abbrev Outcome : Type 0
Outcome = List Service × Result (Unit {0})

err≢ok : (e : Text) → ◌≢◌ {A = Result (Unit {0})} (err e) (ok tt)
err≢ok e h = cc

count_ok-le : (r : Result (Unit {0})) (n : ℕ) → count_ok r n ≤ n + 1
count_ok-le r n = ground arith

module _ (pb : TimestampPb) where
  open pb use {Timestamp}

  -- Each server, in order, was asked to commit and answered that it did.
  abbrev pub Committed : (ℕ → Call Timestamp) → ℕ → Text → List Service → List Service → Type 0
  Committed calls i id [] [] = Unit
  Committed calls i id (s ∷ ss) (s' ∷ ss') =
      (commit_transaction (calls i).fate id (arrive pb (calls i) s) ≡ (s', ok tt))
      × Committed calls (i + 1) id ss ss'
  Committed calls i id _ _ = ⊥

  commit_loop-le :
      (calls : ℕ → Call Timestamp) (i : ℕ) (id : Text) (n : ℕ) (last : Option Text)
      (ss : List Service)
      → (commit_loop pb calls i id n last ss).1 ≤ n + length ss
  unfolding commit_loop
  commit_loop-le calls i id n last [] = omega arith
  commit_loop-le calls i id n last (s ∷ ss) =
      let r : Result (Unit {0}) =
        (commit_transaction (calls i).fate id (arrive pb (calls i) s)).1 in
      omega (
        arith,
        commit_loop-le calls (i + 1) id (count_ok r n) (later_error r last) ss,
        count_ok-le r n,
      )

  commit_loop-Committed :
      (calls : ℕ → Call Timestamp) (i : ℕ) (id : Text) (n : ℕ) (last : Option Text)
      (ss : List Service)
      → (commit_loop pb calls i id n last ss).1 ≡ n + length ss
      → Committed calls i id ss (commit_loop pb calls i id n last ss).0
  unfolding commit_loop
  commit_loop-Committed calls i id n last [] h = tt
  commit_loop-Committed calls i id n last (s ∷ ss) h =
      let x : Service × Result (Unit {0}) =
        commit_transaction (calls i).fate id (arrive pb (calls i) s) in
      elim (Result-cases x.1) [
        | inl (_, good) ↦
            let one : count_ok x.1 n ≡ n + 1 = ap (λ r. count_ok r n) good in
            (
              ap (λ r. (x.0, r)) good,
              commit_loop-Committed calls (i + 1) id (count_ok x.1 n) (later_error x.1 last) ss
                  (omega arith),
            )
        | inr (e, bad) ↦
            let same : count_ok x.1 n ≡ n = ap (λ r. count_ok r n) bad in
            absurd (
              omega
                (arith, commit_loop-le calls (i + 1) id (count_ok x.1 n) (later_error x.1 last) ss))
      ]

  Committed-commit_loop :
      (calls : ℕ → Call Timestamp) (i : ℕ) (id : Text) (n : ℕ) (last : Option Text)
      (ss ss' : List Service)
      → Committed calls i id ss ss'
      → commit_loop pb calls i id n last ss ≡ (ss', n + length ss, last)
  unfolding commit_loop
  Committed-commit_loop calls i id n last [] [] h = let e : n + 0 ≡ n = omega arith in rw e
  Committed-commit_loop calls i id n last [] (s' ∷ ss') h = absurd h
  Committed-commit_loop calls i id n last (s ∷ ss) [] h = absurd h
  Committed-commit_loop calls i id n last (s ∷ ss) (s' ∷ ss') h =
      let e : n + 1 + length ss ≡ n + suc (length ss) = omega arith in
      rw (h.0, Committed-commit_loop calls (i + 1) id (n + 1) last ss ss' h.1, e)

  -- `commitAll` returns no error exactly if every server answered that it committed.
  pub commit_all-Committed :
      (calls : ℕ → Call Timestamp) (id : Text) (ss ss' : List Service)
      → (commit_all pb calls id ss ≡ (ss', ok tt)) ↔ Committed calls 0 id ss ss'
  unfolding commit_all
  commit_all-Committed calls id ss ss' = (
    λ h.
        let l : List Service × ℕ × Option Text = commit_loop pb calls 0 id 0 none ss in
        let nodes : l.0 ≡ ss' = ap (λ (p : Outcome). p.0) h in
        elim (Bool-cases (l.1 == length ss)) [
          | inl full ↦ rw (← nodes) (
              commit_loop-Committed calls 0 id 0 none ss
                (omega (arith, (==_iff l.1 (length ss)).0 full)))
          | inr short ↦ absurd (err≢ok _ (rw short at (ap (λ (p : Outcome). p.1) h)))
        ],
    λ h.
        let e : 0 + length ss ≡ length ss = omega arith in
        rw (Committed-commit_loop calls 0 id 0 none ss ss' h, (==_iff _ _).1 e),
  )

  -- The coordinator returns no error exactly if every server voted yes and then answered that it
  -- committed.
  pub ok-Committed :
      (plan : Plan Timestamp) (id : Text) (d : SensorData) (ss ss' : List Service)
      → (add_data_point_with_two_phase_commit pb plan id d ss ≡ (ss', ok tt)) ↔ (
          (all_prepared (prepare_loop pb plan.prepares 0 id d ss).1 ≡ true)
          × Committed plan.commits 0 id (prepare_loop pb plan.prepares 0 id d ss).0 ss')
  unfolding add_data_point_with_two_phase_commit abort_all
  ok-Committed plan id d ss ss' = (
    λ h. elim (Bool-cases (all_prepared (prepare_loop pb plan.prepares 0 id d ss).1)) [
      | inl yes_all ↦ (
        yes_all,
        (commit_all-Committed plan.commits id _ ss').0
            (rw (yes_all, add_data_point_with_two_phase_commit) at h),
      )
      | inr refused ↦ absurd (
          err≢ok _
            (ap (λ (p : Outcome). p.1) (rw (refused, add_data_point_with_two_phase_commit) at h)))
    ],
    λ h. rw (h.0) ((commit_all-Committed plan.commits id _ ss').1 h.1),
  )
