-- ===== src/Cmd/Sensor/Manager/Stop.antt =====
-- The life of the simulators from `Start` to `Stop`.
use distributed_systems_go.Base.{
  ℕ, zero, suc, ◌+◌, ◌*◌, ◌<◌, ◌≡◌, refl, ap, sym, ◌∙◌, ◌-◌, ltb, ◌==◌, ==_iff, true, false, List,
  [], ◌∷◌, map, length-map, none, some, arith, length, Text, Result, ok, All, All-append,
}
use distributed_systems_go.Base.Int.{ℤ, pos}
use distributed_systems_go.Cmd.Sensor.{Sensor, sensors}
use distributed_systems_go.Cmd.Sensor.Manager.{
  SensorSimulator, SensorManager, new_sensor_manager, start_manager, close_all, stop_manager,
  when_ended, panics, stops,
}
use distributed_systems_go.Cmd.Sensor.Manager.Start.{
  simulators_of, all_simulators, all_simulators-length, start_manager-ok,
}

-- The simulator's channel is open.
abbrev pub IsOpen : SensorSimulator → Type 0
IsOpen s = s.stop_closed ≡ false

simulators_of-IsOpen : (t : Sensor) (n i : ℕ) → All IsOpen (simulators_of t n i)
simulators_of-IsOpen t zero i = tt
simulators_of-IsOpen t (suc n) i = (refl, simulators_of-IsOpen t n (i + 1))

pub all_simulators-IsOpen : (n : ℕ) (ts : List Sensor) → All IsOpen (all_simulators n ts)
all_simulators-IsOpen n [] = tt
all_simulators-IsOpen n (t ∷ ts) =
    All-append IsOpen (simulators_of t n 0) (all_simulators n ts) (simulators_of-IsOpen t n 0)
      (all_simulators-IsOpen n ts)

abbrev closed : SensorSimulator → SensorSimulator
closed s = record s { stop_closed = true }

abbrev pub halted : SensorSimulator → SensorSimulator
halted s = record s { connected = false; stop_closed = true }

close_all-IsOpen : (ss : List SensorSimulator) → All IsOpen ss → close_all ss ≡ some (map closed ss)
unfolding close_all
close_all-IsOpen [] h = refl
close_all-IsOpen (s ∷ ss) h = rw (h.0, close_all-IsOpen ss h.1, close_all) refl

close_all-halted : (ss : List SensorSimulator) → 0 < length ss → close_all (map halted ss) ≡ none
unfolding close_all
close_all-halted [] h = absurd (omega arith)
close_all-halted (s ∷ ss) h = refl

halted-closed :
    (ss : List SensorSimulator)
    → map (λ (s : SensorSimulator). record s { connected = false }) (map closed ss) ≡ map halted ss
halted-closed [] = refl
halted-closed (s ∷ ss) = ap (λ xs. halted s ∷ xs) (halted-closed ss)

when_ended-stops :
    (m : SensorManager)
    → m.running ≡ m.goroutines
    → when_ended m
      ≡ stops (record m {
        simulators = map (λ (s : SensorSimulator). record s { connected = false }) m.simulators;
        running = 0;
        goroutines = 0;
      })
unfolding when_ended
when_ended-stops m e =
    let none_left : m.running - m.goroutines ≡ 0 = omega (arith, e) in
    let not_below : ltb m.running m.goroutines ≡ false = ground (arith, e) in
    let all_done : (m.running == m.goroutines) ≡ true = (==_iff m.running m.goroutines).1 e in
    rw (not_below, all_done, none_left) refl

pub stop_manager-halted :
    (m : SensorManager)
    → All IsOpen m.simulators
    → m.running ≡ m.goroutines
    → stop_manager m
      ≡ stops (record m { simulators = map halted m.simulators; running = 0; goroutines = 0 })
unfolding stop_manager
stop_manager-halted m h e =
    rw (close_all-IsOpen m.simulators h, stop_manager)
      (when_ended-stops (record m { simulators = map closed m.simulators }) e
        ∙ ap (λ ss. stops (record m { simulators = ss; running = 0; goroutines = 0 }))
            (halted-closed m.simulators))

stop_manager-panics : (m : SensorManager) → close_all m.simulators ≡ none → stop_manager m ≡ panics
unfolding stop_manager
stop_manager-panics m h = rw (h, stop_manager) refl

-- If every connection succeeds, a new manager's `Start` of `n` simulators, at least one, for each of
-- the four types has `4 * n` goroutines running, and then `Stop` leaves the `4 * n` simulators
-- disconnected, with their channels closed and no goroutine running; another `Stop` panics.
pub stop_manager-start_manager :
    (connects : ℕ → Result (Unit {0})) (broker_url : Text) (n : ℕ) (duration : ℤ)
    → ((i : ℕ) → connects i ≡ ok tt)
    → 0 < n
    → let started = (start_manager connects (new_sensor_manager broker_url (pos n) duration)).0 in
      (m : SensorManager) × (started.running ≡ 4 * n)
      × (stop_manager started ≡ stops m)
      × (length m.simulators ≡ 4 * n)
      × (m.simulators ≡ map halted started.simulators)
      × (m.running ≡ 0)
      × (stop_manager m ≡ panics)
stop_manager-start_manager connects broker_url n duration good some_type =
    let started : SensorManager =
      (start_manager connects (new_sensor_manager broker_url (pos n) duration)).0 in
    let (made, running, going, fine) = start_manager-ok connects broker_url n duration good in
    let opened : All IsOpen started.simulators = rw made (all_simulators-IsOpen n sensors) in
    let count : length started.simulators ≡ 4 * n =
      ap length made ∙ omega (arith, all_simulators-length n) in
    let counted : length (map halted started.simulators) ≡ 4 * n =
      length-map halted started.simulators ∙ count in
    (
      record started { simulators = map halted started.simulators; running = 0; goroutines = 0 },
      running,
      stop_manager-halted started opened (running ∙ sym going),
      counted,
      refl,
      refl,
      stop_manager-panics _ (close_all-halted started.simulators (omega arith)),
    )
