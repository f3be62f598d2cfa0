-- ===== src/Database/Statistics.antt =====
-- internal/database/client.go: the statistics of the two performance tests.
use native.Mathlib.Nat.{mul-le-mul_left}
use distributed_systems_go.Base.{
  ℕ, ◌+◌, ◌*◌, ◌≤◌, ◌≡◌, arith, ltb, Result, ok, err, if◌then◌else◌, inl, inr, Bool-cases, ltb→lt,
  ltb→le,
}
use distributed_systems_go.Database.Service.{second}

-- `min`, `max` and `total`
pub record Stats : Type 0 where
  pub low : ℕ
  pub high : ℕ
  pub total : ℕ

abbrev pub no_stats : Stats
no_stats = record { low = 3600 * second; high = 0; total = 0 }

-- one round of the loop of `RunTwoPhaseCommitPerformanceTest`; a failed round is skipped
abbrev pub count_rtt : Result ℕ → Stats → Stats
count_rtt (ok rtt) s = record {
  low = if ltb rtt s.low then rtt else s.low;
  high = if ltb s.high rtt then rtt else s.high;
  total = s.total + rtt;
}
count_rtt (err e) s = s

-- The statistics are those of `k` rounds: their total lies between `k` times the least and `k`
-- times the greatest of them.
abbrev pub IsBounded : ℕ → Stats → Type 0
IsBounded k s = (k * s.low ≤ s.total) × (s.total ≤ k * s.high)

mul_succ : (k a : ℕ) → (k + 1) * a ≡ k * a + a
mul_succ k a = grind arith

lower-IsBounded :
    (k rtt low total : ℕ)
    → k * low ≤ total
    → (k + 1) * (if ltb rtt low then rtt else low) ≤ total + rtt
lower-IsBounded k rtt low total h = elim (Bool-cases (ltb rtt low)) [
  | inl e ↦
      let less : k * rtt ≤ k * low = mul-le-mul_left k (omega (arith, ltb→lt rtt low e)) in
      rw (e, mul_succ k rtt) (omega arith)
  | inr e ↦ let least : low ≤ rtt = ltb→le rtt low e in rw (e, mul_succ k low) (omega arith)
]

upper-IsBounded :
    (k rtt high total : ℕ)
    → total ≤ k * high
    → total + rtt ≤ (k + 1) * (if ltb high rtt then rtt else high)
upper-IsBounded k rtt high total h = elim (Bool-cases (ltb high rtt)) [
  | inl e ↦
      let more : k * high ≤ k * rtt = mul-le-mul_left k (omega (arith, ltb→lt high rtt e)) in
      rw (e, mul_succ k rtt) (omega arith)
  | inr e ↦ let most : rtt ≤ high = ltb→le high rtt e in rw (e, mul_succ k high) (omega arith)
]

-- one if the round was measured
abbrev pub counted : Result ℕ → ℕ
counted (ok rtt) = 1
counted (err e) = 0

-- A measured round counts as one more, and a failed one as none.
pub count_rtt-IsBounded :
    (k : ℕ) (r : Result ℕ) (s : Stats) → IsBounded k s → IsBounded (k + counted r) (count_rtt r s)
count_rtt-IsBounded k (ok rtt) s h =
    (lower-IsBounded k rtt s.low s.total h.0, upper-IsBounded k rtt s.high s.total h.1)
count_rtt-IsBounded k (err e) s h = let same : k + 0 ≡ k = omega arith in rw same h

pub counted-le : (r : Result ℕ) → counted r ≤ 1
counted-le (ok rtt) = omega arith
counted-le (err e) = omega arith
