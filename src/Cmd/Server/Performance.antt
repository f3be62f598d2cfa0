-- ===== src/Cmd/Server/Performance.antt =====
-- What the performance test of the coordinator reports.
use native.Mathlib.Nat.{mul-le-mul_left, mul-le-mul_right, div-le_of_le-mul}
use distributed_systems_go.Base.{
  ℕ, zero, suc, ◌+◌, ◌*◌, ◌/◌, ◌≤◌, ◌<◌, ◌≡◌, ap, min, max, List, [], ◌∷◌, arith, length, Result,
  ok, err,
}
use distributed_systems_go.Rpc.{TimestampPb}
use distributed_systems_go.Database.Service.{Service}
use distributed_systems_go.Database.Statistics.{Stats, no_stats, count_rtt}
use distributed_systems_go.Cmd.Server.{
  World, measure_latency, run_trials, run_two_phase_commit_performance_test,
}

-- of some measurements, none of which counts as more than an hour for the least
abbrev pub least : List ℕ → ℕ
least [] = 3_600_000_000_000
least (x ∷ xs) = min x (least xs)

abbrev pub greatest : List ℕ → ℕ
greatest [] = 0
greatest (x ∷ xs) = max x (greatest xs)

abbrev pub sum : List ℕ → ℕ
sum [] = 0
sum (x ∷ xs) = x + sum xs

-- a failed round is no measurement
abbrev pub with_measured : Result ℕ → List ℕ → List ℕ
with_measured (ok rtt) ms = rtt ∷ ms
with_measured (err e) ms = ms

-- The statistics `t` are those of `s` and of further measurements.
abbrev IsWith : List ℕ → Stats → Stats → Type 0
IsWith ms s t =
    (t.low ≡ min s.low (least ms))
    × (t.high ≡ max s.high (greatest ms))
    × (t.total ≡ s.total + sum ms)

count_rtt-low : (r : Result ℕ) (s : Stats) → (count_rtt r s).low ≤ s.low
count_rtt-low (ok rtt) s = ground arith
count_rtt-low (err e) s = omega arith

count_rtt-IsWith :
    (r : Result ℕ) (ms : List ℕ) (s t : Stats)
    → IsWith ms (count_rtt r s) t
    → IsWith (with_measured r ms) s t
count_rtt-IsWith (err e) ms s t h = h
count_rtt-IsWith (ok rtt) ms s t (low, high, total) =
    (ground (arith, low), ground (arith, high), omega (arith, total))

least-le : (ms : List ℕ) → least ms ≤ 3_600_000_000_000
least-le [] = omega arith
least-le (x ∷ xs) = omega (arith, least-le xs)

succ_mul : (k a : ℕ) → suc k * a ≡ k * a + a
succ_mul k a = grind arith

greatest-sum : (ms : List ℕ) → sum ms ≤ length ms * greatest ms
greatest-sum [] = omega arith
greatest-sum (x ∷ xs) =
    let m : ℕ = max x (greatest xs) in
    let more : length xs * greatest xs ≤ length xs * m =
      mul-le-mul_left (length xs) (omega arith) in
    omega (arith, greatest-sum xs, more, succ_mul (length xs) m)

module _ (pb : TimestampPb) where
  open pb use {Timestamp}

  -- the measurements of the rounds that do not fail
  abbrev pub measurements : ℕ → ℕ → World Timestamp → List Service → List ℕ
  measurements zero i w nodes = []
  measurements (suc n) i w nodes =
      let (nodes', r) = measure_latency pb (w.trials i) nodes in
      with_measured r (measurements n (i + 1) w nodes')

  with_measured-le : (r : Result ℕ) (ms : List ℕ) → length (with_measured r ms) ≤ suc (length ms)
  with_measured-le (ok rtt) ms = omega arith
  with_measured-le (err e) ms = omega arith

  measurements-le :
      (n i : ℕ) (w : World Timestamp) (nodes : List Service) → length (measurements n i w nodes) ≤ n
  measurements-le zero i w nodes = omega arith
  measurements-le (suc n) i w nodes =
      let (nodes', r) = measure_latency pb (w.trials i) nodes in
      omega (
        arith,
        measurements-le n (i + 1) w nodes',
        with_measured-le r (measurements n (i + 1) w nodes'),
      )

  run_trials-IsWith :
      (n i : ℕ) (w : World Timestamp) (s : Stats) (nodes : List Service)
      → s.low ≤ 3_600_000_000_000
      → IsWith (measurements n i w nodes) s (run_trials pb n i w s nodes).1
  unfolding run_trials
  run_trials-IsWith zero i w s nodes h = (ground (arith, h), ground arith, omega arith)
  run_trials-IsWith (suc n) i w s nodes h =
      let (nodes', r) = measure_latency pb (w.trials i) nodes in
      count_rtt-IsWith r (measurements n (i + 1) w nodes') s _
        (run_trials-IsWith n (i + 1) w (count_rtt r s) nodes' (omega (arith, h, count_rtt-low r s)))

  -- The performance test of `n` rounds, at least one, makes at most `n` measurements, one for each
  -- round that does not fail. It reports the least of them, or an hour if there is none below, the
  -- greatest, or 0 if there is none, and their sum over all rounds; this mean is at most the
  -- greatest.
  pub run_two_phase_commit_performance_test-bounds :
      (n : ℕ) (w : World Timestamp) (nodes : List Service)
      → 0 < n
      → let (nodes', low, high, mean) = run_two_phase_commit_performance_test pb n w nodes in
        (length (measurements n 0 w nodes) ≤ n)
        × (low ≡ least (measurements n 0 w nodes))
        × (high ≡ greatest (measurements n 0 w nodes))
        × (mean ≡ sum (measurements n 0 w nodes) / n)
        × (mean ≤ high)
  unfolding run_two_phase_commit_performance_test
  run_two_phase_commit_performance_test-bounds n w nodes some_round =
      let ms : List ℕ = measurements n 0 w nodes in
      let s : Stats = (run_trials pb n 0 w no_stats nodes).1 in
      let few : length ms ≤ n = measurements-le n 0 w nodes in
      let (low, high, total) = run_trials-IsWith n 0 w no_stats nodes (omega arith) in
      let highest : s.high ≡ greatest ms = omega (arith, high) in
      let summed : s.total ≡ sum ms = omega (arith, total) in
      let fewer : length ms * greatest ms ≤ n * greatest ms = mul-le-mul_right (greatest ms) few in
      let most : s.total ≤ n * s.high =
        rw highest (omega (arith, summed, fewer, greatest-sum ms)) in
      (
        few,
        omega (arith, low, least-le ms),
        highest,
        ap (λ x. x / n) summed,
        div-le_of_le-mul n (omega (arith, most)),
      )
