-- ===== src/Cmd/Sensor/Main.antt =====
-- cmd/sensor/main.go, `main`, on the values of the flags. `connects` gives the results of connecting
-- to the broker; between `Start` and the signal the simulators run.
use distributed_systems_go.Base.{
  ◌*◌, sym, ap, ◌∙◌, append-nil, append_assoc, length-map, arith, ℕ, zero, suc, ◌+◌, ◌≡◌, refl, inl,
  inr, true, false, List, [], ◌∷◌, ◌++◌, map, length, Text, text, Result, Result-cases, ok, err,
  All,
}
use distributed_systems_go.Base.Int.{pos, negsuc, ℤ, show_int}
use distributed_systems_go.Cmd.Program.{Exit, fatal, panicked, at_work, finished}
use distributed_systems_go.Cmd.Sensor.{Sensor, sensors}
use distributed_systems_go.Cmd.Sensor.Manager.{
  SensorSimulator, SensorManager, new_sensor_manager, create_sensor_simulator, create_type,
  create_types, rounds, start_made, start_manager, stop_manager, sensor_id_of, Halting, panics,
  waits, stops,
}
use distributed_systems_go.Cmd.Sensor.Manager.Stop.{
  IsOpen, halted, all_simulators-IsOpen, stop_manager-halted,
}
use distributed_systems_go.Cmd.Sensor.Manager.Start.{
  simulators_of, all_simulators, all_simulators-length,
}

-- the flags
pub record Flags : Type 0 where
  pub mqtt_host : Text
  pub mqtt_port : ℤ
  pub instances : ℤ
  pub duration : ℤ

-- the manager that `main` makes
unfoldable pub manager_for : Flags → SensorManager
manager_for f =
    new_sensor_manager (f.mqtt_host ++ (b':' ∷ show_int f.mqtt_port)) f.instances f.duration

abbrev pub exit_of : Halting → Exit SensorManager
exit_of panics = panicked
exit_of (waits m) = at_work m
exit_of (stops m) = finished m

unfoldable pub after_start : SensorManager × Result (Unit {0}) → Exit SensorManager
after_start (m, err e) = fatal (text "Failed to start sensor manager: " ++ e)
after_start (m, ok _) = exit_of (stop_manager m)

-- `main`
unfoldable pub main : (ℕ → Result (Unit {0})) → Flags → Exit SensorManager
unfolding after_start
main connects f = after_start (start_manager connects (manager_for f))

-- the simulators of each type that the flag asks for
abbrev pub asked_for : ℤ → ℕ
asked_for (pos n) = n
asked_for (negsuc n) = 0

-- `main` has ended after the signal, with the asked number of simulators of each type, all halted, and
-- no goroutine running; or because a connection failed.
abbrev pub IsQuiet : (ℕ → Result (Unit {0})) → ℕ → Exit SensorManager → Type 0
IsQuiet connects n (finished m) =
    (length m.simulators ≡ 4 * n)
    × (m.simulators ≡ map halted (all_simulators n sensors))
    × (m.running ≡ 0)
    × (m.goroutines ≡ 0)
IsQuiet connects n (fatal e) = (i : ℕ) × (why : Text) × (connects i ≡ err why)
IsQuiet connects n _ = ⊥

module _ (connects : ℕ → Result (Unit {0})) where
  -- Without an error the simulators are those expected; an error is that of a connection.
  abbrev IsMade : List SensorSimulator → List SensorSimulator × Result (Unit {0}) → Type 0
  IsMade expected (made, ok _) = made ≡ expected
  IsMade expected (made, err e) = (i : ℕ) × (why : Text) × (connects i ≡ err why)

  create_type-IsMade :
      (t : Sensor) (left i : ℕ) (made : List SensorSimulator)
      → IsMade (made ++ simulators_of t left i) (create_type connects t left i made)
  unfolding create_type create_sensor_simulator
  create_type-IsMade t zero i made = sym (append-nil made)
  create_type-IsMade t (suc left) i made = elim (Result-cases (connects (length made))) [
    | inl (u, good) ↦
        let new : SensorSimulator = record {
          sensor_type = t;
          sensor_id = sensor_id_of t.id (i + 1);
          connected = true;
          stop_closed = false;
        } in
        rw (good, create_type)
          (rw (append_assoc made (new ∷ []) (simulators_of t left (i + 1))) at
            (create_type-IsMade t left (i + 1) (made ++ new ∷ [])))
    | inr (why, failed) ↦ rw (failed, create_type) (length made, why, failed)
  ]

  continue-IsMade :
      (n : ℕ) (ts : List Sensor) (here : List SensorSimulator)
      (p : List SensorSimulator × Result (Unit {0}))
      → IsMade (here ++ all_simulators n ts) (create_types connects n ts here)
      → IsMade here p
      → IsMade
          (here ++ all_simulators n ts)
          (elim p.1 as (λ r. List SensorSimulator × Result (Unit {0})) [
            | ok u ↦ create_types connects n ts p.0
            | err e ↦ (p.0, err e)
          ])
  continue-IsMade n ts here (made, ok u) later h = rw h later
  continue-IsMade n ts here (made, err e) later h = h

  create_types-IsMade :
      (n : ℕ) (ts : List Sensor) (made : List SensorSimulator)
      → IsMade (made ++ all_simulators n ts) (create_types connects n ts made)
  unfolding create_types
  create_types-IsMade n [] made = sym (append-nil made)
  create_types-IsMade n (t ∷ ts) made =
      rw (← append_assoc made (simulators_of t n 0) (all_simulators n ts)) (
        continue-IsMade n ts (made ++ simulators_of t n 0) (create_type connects t n 0 made)
          (create_types-IsMade n ts (made ++ simulators_of t n 0)) (create_type-IsMade t n 0 made))

  after_start-IsQuiet :
      (n : ℕ) (m : SensorManager) (p : List SensorSimulator × Result (Unit {0}))
      → m.running ≡ m.goroutines
      → IsMade (all_simulators n sensors) p
      → IsQuiet connects n (after_start (start_made m p))
  unfolding after_start
  after_start-IsQuiet n m (made, ok u) same h =
      let opened : All IsOpen made = rw h (all_simulators-IsOpen n sensors) in
      rw
        (stop_manager-halted
          (record m {
            simulators = made;
            running = m.running + length made;
            goroutines = m.goroutines + length made;
          })
          opened (omega (arith, same)))
        (
          length-map halted made ∙ ap length h ∙ omega (arith, all_simulators-length n),
          ap (map halted) h,
          refl,
          refl,
        )
  after_start-IsQuiet n m (made, err e) same h = h

  rounds-asked_for : (n : ℤ) → rounds n ≡ asked_for n
  rounds-asked_for (pos n) = refl
  rounds-asked_for (negsuc n) = refl

  -- Whatever the flags are, `main` does not panic: it ends after the signal, with the asked number of
  -- simulators for each of the four types, none if that is negative, every one with its client
  -- disconnected and its channel closed, and no goroutine running or waited for; or it ends because
  -- a connection failed.
  pub main-IsQuiet : (f : Flags) → IsQuiet connects (asked_for f.instances) (main connects f)
  unfolding main start_manager manager_for new_sensor_manager
  main-IsQuiet f =
      after_start-IsQuiet (asked_for f.instances) (manager_for f) _ refl
        (rw (← rounds-asked_for f.instances) (create_types-IsMade (rounds f.instances) sensors []))
