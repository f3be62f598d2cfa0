-- ===== src/Cmd/Sensor/Manager/Ids.antt =====
-- The ids of the simulators that a manager makes all differ.
use distributed_systems_go.Base.{
  ℕ, zero, suc, ◌+◌, ◌^◌, ◌≤◌, ◌<◌, ◌≡◌, ◌≢◌, ap, arith, List, [], ◌∷◌, ◌++◌, map, map-append, Text,
  text, All, All-append,
}
use distributed_systems_go.Http.Strings.Split.{Without}
use distributed_systems_go.Cmd.Sensor.{Sensor, sensors}
use distributed_systems_go.Cmd.Sensor.Manager.{SensorSimulator, sensor_id_of}
use distributed_systems_go.Cmd.Sensor.Manager.Start.{
  simulators_of, all_simulators, sensor_id_of-injective,
}

-- No two of the texts are the same.
abbrev pub AreDifferent : List Text → Type 0
AreDifferent [] = Unit
AreDifferent (t ∷ ts) = All (λ u. t ≢ u) ts × AreDifferent ts

AreDifferent-append :
    (ts us : List Text)
    → AreDifferent ts
    → AreDifferent us
    → All (λ t. All (λ u. t ≢ u) us) ts
    → AreDifferent (ts ++ us)
AreDifferent-append [] us ht hu apart = hu
AreDifferent-append (t ∷ ts) us ht hu apart =
    (All-append (λ u. t ≢ u) ts us ht.0 apart.0, AreDifferent-append ts us ht.1 hu apart.1)

-- the ids of simulators
abbrev pub ids : List SensorSimulator → List Text
ids ss = map (λ (s : SensorSimulator). s.sensor_id) ss

-- An earlier number of a type is no id of later simulators of that type.
simulators_of-later :
    (t : Sensor) (left i k : ℕ)
    → Without b'-' t.id
    → k ≤ i
    → i + left < 2 ^ 63
    → All (λ u. sensor_id_of t.id k ≢ u) (ids (simulators_of t left i))
simulators_of-later t zero i k plain before small = tt
simulators_of-later t (suc left) i k plain before small = (
  λ e.
      let same : k ≡ i + 1 =
        (sensor_id_of-injective t.id t.id k (i + 1) plain plain (omega arith) (omega arith) e).1 in
      omega arith,
  simulators_of-later t left (i + 1) k plain (omega arith) (omega arith),
)

simulators_of-AreDifferent :
    (t : Sensor) (left i : ℕ)
    → Without b'-' t.id
    → i + left < 2 ^ 63
    → AreDifferent (ids (simulators_of t left i))
simulators_of-AreDifferent t zero i plain small = tt
simulators_of-AreDifferent t (suc left) i plain small = (
  simulators_of-later t left (i + 1) (i + 1) plain (omega arith) (omega arith),
  simulators_of-AreDifferent t left (i + 1) plain (omega arith),
)

-- An id of another type is no id of a type's simulators.
simulators_of-other :
    (a : Text) (t : Sensor) (left i k : ℕ)
    → Without b'-' a
    → Without b'-' t.id
    → a ≢ t.id
    → k < 2 ^ 63
    → i + left < 2 ^ 63
    → All (λ u. sensor_id_of a k ≢ u) (ids (simulators_of t left i))
simulators_of-other a t zero i k pa pt other hk small = tt
simulators_of-other a t (suc left) i k pa pt other hk small = (
  λ e. other (sensor_id_of-injective a t.id k (i + 1) pa pt hk (omega arith) e).0,
  simulators_of-other a t left (i + 1) k pa pt other hk (omega arith),
)

-- A type's id holds no dash.
abbrev IsDashless : Sensor → Type 0
IsDashless t = Without b'-' t.id

All-unmap :
    (id : Text) (ts : List Sensor)
    → All (λ u. id ≢ u) (map (λ (t : Sensor). t.id) ts)
    → All (λ (t : Sensor). id ≢ t.id) ts
All-unmap id [] other = tt
All-unmap id (t ∷ ts) other = (other.0, All-unmap id ts other.1)

module _ (n : ℕ) (small : n < 2 ^ 63) where
  all_simulators-other :
      (a : Text) (ts : List Sensor) (k : ℕ)
      → Without b'-' a
      → All IsDashless ts
      → All (λ t. a ≢ t.id) ts
      → k < 2 ^ 63
      → All (λ u. sensor_id_of a k ≢ u) (ids (all_simulators n ts))
  all_simulators-other a [] k pa plain other hk = tt
  all_simulators-other a (t ∷ ts) k pa plain other hk =
      rw
        (map-append (λ (s : SensorSimulator). s.sensor_id) (simulators_of t n 0)
          (all_simulators n ts))
        (All-append (λ u. sensor_id_of a k ≢ u) (ids (simulators_of t n 0))
          (ids (all_simulators n ts))
          (simulators_of-other a t n 0 k pa plain.0 other.0 hk (omega arith))
          (all_simulators-other a ts k pa plain.1 other.1 hk))

  simulators_of-apart :
      (t : Sensor) (ts : List Sensor) (left i : ℕ)
      → IsDashless t
      → All IsDashless ts
      → All (λ (u : Sensor). t.id ≢ u.id) ts
      → i + left < 2 ^ 63
      → All (λ x. All (λ y. x ≢ y) (ids (all_simulators n ts))) (ids (simulators_of t left i))
  simulators_of-apart t ts zero i plain others other h = tt
  simulators_of-apart t ts (suc left) i plain others other h = (
    all_simulators-other t.id ts (i + 1) plain others other (omega arith),
    simulators_of-apart t ts left (i + 1) plain others other (omega arith),
  )

  pub all_simulators-AreDifferent :
      (ts : List Sensor)
      → All IsDashless ts
      → AreDifferent (map (λ (t : Sensor). t.id) ts)
      → AreDifferent (ids (all_simulators n ts))
  all_simulators-AreDifferent [] plain different = tt
  all_simulators-AreDifferent (t ∷ ts) plain different =
      let others : All (λ (u : Sensor). t.id ≢ u.id) ts = All-unmap t.id ts different.0 in
      rw
        (map-append (λ (s : SensorSimulator). s.sensor_id) (simulators_of t n 0)
          (all_simulators n ts))
        (AreDifferent-append (ids (simulators_of t n 0)) (ids (all_simulators n ts))
          (simulators_of-AreDifferent t n 0 plain.0 (omega arith))
          (all_simulators-AreDifferent ts plain.1 different.1)
          (simulators_of-apart t ts n 0 plain.0 plain.1 others (omega arith)))

abbrev pub head : Text → ℕ
head [] = 0
head (c ∷ cs) = c

pub first_byte : {t u : Text} → t ≡ u → head t ≡ head u
first_byte e = ap head e

-- Texts with different first bytes differ.
heads-ne : (t u : Text) → head t ≢ head u → t ≢ u
heads-ne t u other e = other (first_byte e)

-- The four types have ids without a dash that all differ.
pub sensors-IsDashless : All IsDashless sensors
unfolding text
sensors-IsDashless = ground arith

pub sensors-AreDifferent : AreDifferent (map (λ (t : Sensor). t.id) sensors)
unfolding text
sensors-AreDifferent = (
  (
    heads-ne _ _ (λ e. omega arith),
    (heads-ne _ _ (λ e. omega arith), (heads-ne _ _ (λ e. omega arith), tt)),
  ),
  (
    (heads-ne _ _ (λ e. omega arith), (heads-ne _ _ (λ e. omega arith), tt)),
    ((heads-ne _ _ (λ e. omega arith), tt), (tt, tt)),
  ),
)
