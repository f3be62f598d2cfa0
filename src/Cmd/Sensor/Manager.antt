-- ===== src/Cmd/Sensor/Manager.antt =====
-- cmd/sensor/main.go, `SensorManager`: the simulators of all types. `connects` gives the result of
-- the MQTT connection of each simulator, by the order of creation.
pub mod Start
pub mod Ids
pub mod Stop
use distributed_systems_go.Base.{
  ltb, ◌==◌, ◌-◌, if◌then◌else◌, ℕ, zero, suc, ◌+◌, ◌*◌, ◌^◌, ◌<◌, ◌≤◌, ◌≡◌, ◌≢◌, refl, sym, ap,
  ap₂, ◌∙◌, Bool, true, false, List, [], ◌∷◌, ◌++◌, map, append_assoc, append-nil, Option, none,
  some, arith, length, length-append, Text, text, decimal, Result, ok, err, All,
}
use distributed_systems_go.Base.Int.{ℤ, pos, negsuc}
use distributed_systems_go.Http.Strings.{cut}
use distributed_systems_go.Http.Strings.Split.{Without, cut-part}
use distributed_systems_go.Http.Strings.Number.{atoi-decimal}
use distributed_systems_go.Cmd.Sensor.{Sensor, sensors}

-- `SensorSimulator`
pub record SensorSimulator : Type 0 where
  pub sensor_type : Sensor
  pub sensor_id : Text
  pub connected : Bool
  pub stop_closed : Bool

-- `SensorManager`; `running` is the counter of the wait group, `goroutines` how many simulators run
pub record SensorManager : Type 0 where
  pub broker_url : Text
  pub types : List Sensor
  pub sensors_per_type : ℤ
  pub duration : ℤ
  pub simulators : List SensorSimulator
  pub running : ℕ
  pub goroutines : ℕ

-- `NewSensorManager`
unfoldable pub new_sensor_manager : Text → ℤ → ℤ → SensorManager
new_sensor_manager broker_url per_type duration = record {
  broker_url = broker_url;
  types = sensors;
  sensors_per_type = per_type;
  duration = duration;
  simulators = [];
  running = 0;
  goroutines = 0;
}

-- `"%s-%d"` of the type and the number
unfoldable pub sensor_id_of : Text → ℕ → Text
sensor_id_of type_id number = type_id ++ (b'-' ∷ decimal number)

-- `createSensorSimulator`
unfoldable pub create_sensor_simulator : Sensor → Text → Result (Unit {0}) → Result SensorSimulator
create_sensor_simulator t sensor_id (ok _) =
    ok (record { sensor_type = t; sensor_id = sensor_id; connected = true; stop_closed = false })
create_sensor_simulator t sensor_id (err e) = err (text "failed to connect to MQTT broker: " ++ e)

-- the inner loop of `Start`: `left` more simulators of a type, from index `i`, on those so far
unfoldable pub create_type :
    (ℕ → Result (Unit {0}))
    → Sensor
    → ℕ
    → ℕ
    → List SensorSimulator
    → List SensorSimulator × Result (Unit {0})
create_type connects t zero i made = (made, ok tt)
create_type connects t (suc left) i made =
    elim (create_sensor_simulator t (sensor_id_of t.id (i + 1)) (connects (length made))) [
      | ok s ↦ create_type connects t left (i + 1) (made ++ s ∷ [])
      | err e ↦ (
        made,
        err (text "failed to create sensor " ++ (sensor_id_of t.id (i + 1) ++ (text ": " ++ e))),
      )
    ]

-- the outer loop, over the types
unfoldable pub create_types :
    (ℕ → Result (Unit {0}))
    → ℕ
    → List Sensor
    → List SensorSimulator
    → List SensorSimulator × Result (Unit {0})
create_types connects n [] made = (made, ok tt)
create_types connects n (t ∷ ts) made =
    let (made', r) = create_type connects t n 0 made in
    elim r [ ok _ ↦ create_types connects n ts made' | err e ↦ (made', err e) ]

-- the rounds of `i < n`
abbrev pub rounds : ℤ → ℕ
rounds (pos n) = n
rounds (negsuc n) = 0

-- the goroutines of `Start`, once the simulators are made
abbrev pub start_made :
    SensorManager → List SensorSimulator × Result (Unit {0}) → SensorManager × Result (Unit {0})
start_made m (made, ok _) = (
  record m {
    simulators = made;
    running = m.running + length made;
    goroutines = m.goroutines + length made;
  },
  ok tt,
)
start_made m (made, err e) = (record m { simulators = made }, err e)

-- `Start`
unfoldable pub start_manager :
    (ℕ → Result (Unit {0})) → SensorManager → SensorManager × Result (Unit {0})
start_manager connects m =
    start_made m (create_types connects (rounds m.sensors_per_type) m.types m.simulators)

-- the channels of `Stop`: closing one that is closed is a panic
unfoldable pub close_all : List SensorSimulator → Option (List SensorSimulator)
close_all [] = some []
close_all (s ∷ ss) = elim s.stop_closed [
  | true ↦ none
  | false ↦ elim (close_all ss) [
    | none ↦ none
    | some closed ↦ some (record s { stop_closed = true } ∷ closed)
  ]
]

-- what `Stop` comes to: a panic, waiting for the wait group, or its end
pub data Halting : Type 0 where
  panics : Halting
  waits stops : SensorManager → Halting

-- `Wait` and what follows, once the channels are closed: every simulator that runs meets its closed
-- channel and calls `Done`. A counter below 0 is a panic, and one above 0 keeps `Wait` waiting; at 0
-- the clients are disconnected.
unfoldable pub when_ended : SensorManager → Halting
when_ended m =
    if ltb m.running m.goroutines
    then panics
    else if m.running == m.goroutines
    then stops (record m {
      simulators = map (λ (s : SensorSimulator). record s { connected = false }) m.simulators;
      running = m.running - m.goroutines;
      goroutines = 0;
    })
    else waits (record m { running = m.running - m.goroutines; goroutines = 0 })

-- `Stop`
unfoldable pub stop_manager : SensorManager → Halting
unfolding when_ended
stop_manager m = elim (close_all m.simulators) [
  | none ↦ panics
  | some closed ↦ when_ended (record m { simulators = closed })
]
