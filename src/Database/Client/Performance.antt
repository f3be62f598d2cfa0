-- ===== src/Database/Client/Performance.antt =====
-- internal/database/client.go: the performance test of one client.
use native.Mathlib.Nat.{div-le_of_le-mul, le-div_iff_mul-le}
use distributed_systems_go.Base.{
  ℕ, zero, suc, ◌+◌, ◌*◌, ◌/◌, ◌≤◌, ◌<◌, ◌≡◌, refl, sym, ap, arith, text, Result, ok, err,
}
use distributed_systems_go.Types.{Time}
use distributed_systems_go.Rpc.{TimestampPb, OperationResponse}
use distributed_systems_go.Database.Service.{Service, create_sensor_data}
use distributed_systems_go.Database.Statistics.{
  Stats, no_stats, count_rtt, IsBounded, count_rtt-IsBounded,
}
use distributed_systems_go.Database.Client.{Fate, rpc, wrap, to_request}

-- one call of the test: its fate, the server's clock, the client's clock before it, and the
-- nanoseconds that it took
pub record Probe : Type 0 where
  pub fate : Fate
  pub now : Time
  pub started : Time
  pub rtt : ℕ

-- the time of an answered call; its success is not looked at
abbrev pub timed : ℕ → Result OperationResponse → Result ℕ
timed rtt (ok _) = ok rtt
timed rtt (err e) = err e

module _ (pb : TimestampPb) where
  -- `Client.MeasureRPCLatency`, with its fixed reading
  unfoldable pub measure_rpc_latency : Probe → Service → Service × Result ℕ
  measure_rpc_latency p s =
      let (s', answer) =
        rpc p.fate
          (create_sensor_data pb p.now (
            to_request pb (record {
              sensor_id = text "perf-test";
              timestamp = p.started;
              value = 0x4045_0000_0000_0000;
              unit = text "test";
            })))
          s in
      (s', timed p.rtt (wrap (text "error during performance test") answer))

  -- the loop of `RunPerformanceTest`, on the rounds left, which ends at the first error
  unfoldable pub run_probes : ℕ → ℕ → (ℕ → Probe) → Stats → Service → Service × Result Stats
  run_probes zero i probes stats s = (s, ok stats)
  run_probes (suc n) i probes stats s =
      let (s', r) = measure_rpc_latency (probes i) s in
      elim r [
        | ok rtt ↦ run_probes n (i + 1) probes (count_rtt (ok rtt) stats) s'
        | err e ↦ (s', err e)
      ]

  -- the end of `RunPerformanceTest`, whose mean is over the rounds: least, greatest and mean
  abbrev pub report : ℕ → Result Stats → Result (ℕ × ℕ × ℕ)
  report n (ok stats) = ok (stats.low, stats.high, stats.total / n)
  report n (err e) = err e

  -- `Client.RunPerformanceTest`, on at least one round; Go panics on none
  unfoldable pub run_performance_test : ℕ → (ℕ → Probe) → Service → Service × Result (ℕ × ℕ × ℕ)
  run_performance_test n probes s =
      let (s', r) = run_probes n 0 probes no_stats s in (s', report n r)

  measure_rpc_latency-delivered :
      (p : Probe) (s : Service) → p.fate ≡ Fate.delivered → (measure_rpc_latency p s).1 ≡ ok p.rtt
  unfolding measure_rpc_latency rpc wrap
  measure_rpc_latency-delivered p s h = rw h refl

  run_probes-ok :
      (n i k : ℕ) (probes : ℕ → Probe) (stats : Stats) (s : Service)
      → ((j : ℕ) → (probes j).fate ≡ Fate.delivered)
      → IsBounded k stats
      → (stats' : Stats) × ((run_probes n i probes stats s).1 ≡ ok stats')
        × IsBounded (k + n) stats'
  unfolding run_probes
  run_probes-ok zero i k probes stats s able h =
      let same : k + 0 ≡ k = omega arith in (stats, refl, rw same h)
  run_probes-ok (suc n) i k probes stats s able h =
      let (s', r) = measure_rpc_latency (probes i) s in
      let measured : r ≡ ok (probes i).rtt = measure_rpc_latency-delivered (probes i) s (able i) in
      let counts : k + 1 + n ≡ k + suc n = omega arith in
      rw (measured, run_probes, sym counts)
        (run_probes-ok n (i + 1) (k + 1) probes (count_rtt (ok (probes i).rtt) stats) s' able
          (count_rtt-IsBounded k (ok (probes i).rtt) stats h))

  -- With `n` rounds, at least one, that are all answered, the test gives a least, a greatest and a
  -- mean time, with the mean between the two.
  pub run_performance_test-ok :
      (n : ℕ) (probes : ℕ → Probe) (s : Service)
      → 0 < n
      → ((j : ℕ) → (probes j).fate ≡ Fate.delivered)
      → (low : ℕ) × (high : ℕ) × (mean : ℕ) × ((run_performance_test n probes s).1
          ≡ ok (low, high, mean))
        × (low ≤ mean)
        × (mean ≤ high)
  unfolding run_performance_test
  run_performance_test-ok n probes s some_round able =
      let (stats, e, bounded) =
        run_probes-ok n 0 0 probes no_stats s able (omega arith, omega arith) in
      let least : stats.low * n ≤ stats.total = grind (arith, bounded.0) in
      let same : 0 + n ≡ n = omega arith in
      (
        stats.low,
        stats.high,
        stats.total / n,
        ap (report n) e,
        (le-div_iff_mul-le some_round).1 least,
        div-le_of_le-mul n (rw same at bounded.1),
      )
