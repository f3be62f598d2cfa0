-- ===== src/Cmd/Sensor/Manager/Start.antt =====
-- The simulators that `Start` makes, and their ids.
use distributed_systems_go.Base.{
  ℕ, zero, suc, ◌+◌, ◌*◌, ◌^◌, ◌<◌, ◌≡◌, refl, sym, ap, ◌∙◌, true, false, List, [], ◌∷◌, ◌++◌,
  append_assoc, append-nil, Option, some, arith, length, length-append, Text, decimal, Result, ok,
  err,
}
use distributed_systems_go.Base.Int.{ℤ, pos}
use distributed_systems_go.Http.Strings.{cut, atoi}
use distributed_systems_go.Http.Strings.Split.{Without, cut-part}
use distributed_systems_go.Http.Strings.Number.{atoi-decimal}
use distributed_systems_go.Cmd.Sensor.{Sensor, temperature, humidity, pressure, light, sensors}
use distributed_systems_go.Cmd.Sensor.Manager.{
  SensorSimulator, new_sensor_manager, sensor_id_of, create_sensor_simulator, create_type,
  create_types, start_manager,
}

-- the simulators of a type from number `i + 1` on
abbrev pub simulators_of : Sensor → ℕ → ℕ → List SensorSimulator
simulators_of t zero i = []
simulators_of t (suc left) i =
    record {
      sensor_type = t;
      sensor_id = sensor_id_of t.id (i + 1);
      connected = true;
      stop_closed = false;
    }
    ∷ simulators_of t left (i + 1)

abbrev pub all_simulators : ℕ → List Sensor → List SensorSimulator
all_simulators n [] = []
all_simulators n (t ∷ ts) = simulators_of t n 0 ++ all_simulators n ts

module _ (connects : ℕ → Result (Unit {0})) (good : (i : ℕ) → connects i ≡ ok tt) where
  create_type-ok :
      (t : Sensor) (left i : ℕ) (made : List SensorSimulator)
      → create_type connects t left i made ≡ (made ++ simulators_of t left i, ok tt)
  unfolding create_type create_sensor_simulator
  create_type-ok t zero i made =
      ap (λ (ss : List SensorSimulator). (ss, ok tt)) (sym (append-nil made))
  create_type-ok t (suc left) i made =
      rw (good (length made), create_type)
        (create_type-ok t left (i + 1) _
          ∙ ap (λ (ss : List SensorSimulator). (ss, ok tt))
              (append_assoc made _ (simulators_of t left (i + 1))))

  create_types-ok :
      (n : ℕ) (ts : List Sensor) (made : List SensorSimulator)
      → create_types connects n ts made ≡ (made ++ all_simulators n ts, ok tt)
  unfolding create_types
  create_types-ok n [] made =
      ap (λ (ss : List SensorSimulator). (ss, ok tt)) (sym (append-nil made))
  create_types-ok n (t ∷ ts) made =
      ap
        (λ (p : List SensorSimulator × Result (Unit {0})).
          elim p.1 as (λ r. List SensorSimulator × Result (Unit {0})) [
            | ok u ↦ create_types connects n ts p.0
            | err e ↦ (p.0, err e)
          ])
        (create_type-ok t n 0 made)
      ∙ (create_types-ok n ts (made ++ simulators_of t n 0)
          ∙ ap (λ (ss : List SensorSimulator). (ss, ok tt))
              (append_assoc made (simulators_of t n 0) (all_simulators n ts)))

simulators_of-length : (t : Sensor) (n i : ℕ) → length (simulators_of t n i) ≡ n
simulators_of-length t zero i = refl
simulators_of-length t (suc n) i = ap suc (simulators_of-length t n (i + 1))

pub all_simulators-length : (n : ℕ) → 0 + length (all_simulators n sensors) ≡ 4 * n
all_simulators-length n =
    let a : List SensorSimulator = simulators_of light n 0 ++ [] in
    let b : List SensorSimulator = simulators_of pressure n 0 ++ a in
    let c : List SensorSimulator = simulators_of humidity n 0 ++ b in
    omega (
      arith,
      length-append (simulators_of temperature n 0) c,
      length-append (simulators_of humidity n 0) b,
      length-append (simulators_of pressure n 0) a,
      length-append (simulators_of light n 0) [],
      simulators_of-length temperature n 0,
      simulators_of-length humidity n 0,
      simulators_of-length pressure n 0,
      simulators_of-length light n 0,
    )

-- If every connection succeeds, a new manager's `Start` returns no error and makes, for each of the
-- four types, the asked number of simulators with the numbers from 1 on, connected and running.
pub start_manager-ok :
    (connects : ℕ → Result (Unit {0})) (broker_url : Text) (n : ℕ) (duration : ℤ)
    → ((i : ℕ) → connects i ≡ ok tt)
    → let started = start_manager connects (new_sensor_manager broker_url (pos n) duration) in
      (started.0.simulators ≡ all_simulators n sensors)
      × (started.0.running ≡ 4 * n)
      × (started.0.goroutines ≡ 4 * n)
      × (started.1 ≡ ok tt)
unfolding start_manager new_sensor_manager
start_manager-ok connects broker_url n duration good =
    let made : create_types connects n sensors [] ≡ (all_simulators n sensors, ok tt) =
      create_types-ok connects good n sensors [] in
    rw made (refl, all_simulators-length n, all_simulators-length n, refl)

pos-injective : (m n : ℕ) → pos m ≡ pos n → m ≡ n
pos-injective m n e = cc

-- Two simulators whose types' ids hold no dash have one id only if the types' ids and the numbers
-- are the same.
pub sensor_id_of-injective :
    (a b : Text) (m n : ℕ)
    → Without b'-' a
    → Without b'-' b
    → m < 2 ^ 63
    → n < 2 ^ 63
    → sensor_id_of a m ≡ sensor_id_of b n
    → (a ≡ b) × (m ≡ n)
unfolding sensor_id_of
sensor_id_of-injective a b m n ha hb hm hn e =
    let parts : ◌≡◌ {A = Option (Text × Text)} (some (a, decimal m)) (some (b, decimal n)) =
      sym (cut-part b'-' a (decimal m) ha) ∙ (ap (cut b'-') e ∙ cut-part b'-' b (decimal n) hb) in
    let same_digits : decimal m ≡ decimal n = cc in
    let numbers : ◌≡◌ {A = Option (Option ℤ)} (some (some (pos m))) (some (some (pos n))) =
      sym (atoi-decimal m hm) ∙ (ap atoi same_digits ∙ atoi-decimal n hn) in
    (cc, pos-injective m n (cc))
