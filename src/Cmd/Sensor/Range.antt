-- ===== src/Cmd/Sensor/Range.antt =====
-- What a simulator publishes.
use distributed_systems_go.Base.{
  suc, ◌≡◌, refl, ap, false, inl, inr, Bool-cases, List, [], ◌∷◌, length, Text, Result,
  Result-cases, ok, err, All, All-append,
}
use distributed_systems_go.Types.{Float, SensorData}
use distributed_systems_go.Types.Floats.{Arithmetic, is_nan, lt, lt-irreflexive}
use distributed_systems_go.Cmd.Json.{Json}
use distributed_systems_go.Cmd.Sensor.{
  Sensor, sensors, clamp, generate_sensor_value, apply_drift, topic_of, publish_data, Tick,
  reading_of, run_ticks,
}

-- Neither below the least nor above the greatest value of the sensor.
abbrev pub IsWithin : Sensor → Float → Type 0
IsWithin s v = (lt v s.min_value ≡ false) × (lt s.max_value v ≡ false)

-- The sensor's bounds are in order.
abbrev pub IsOrdered : Sensor → Type 0
IsOrdered s = lt s.max_value s.min_value ≡ false

-- The four sensor types have their bounds in order.
pub sensors-IsOrdered : All IsOrdered sensors
unfolding lt is_nan
sensors-IsOrdered = (refl, (refl, (refl, (refl, tt))))

pub clamp-IsWithin : (s : Sensor) (v : Float) → IsOrdered s → IsWithin s (clamp s v)
unfolding clamp
clamp-IsWithin s v h = elim (Bool-cases (lt v s.min_value)) [
  | inl low ↦ rw (low, clamp) (lt-irreflexive s.min_value, h)
  | inr not_low ↦ elim (Bool-cases (lt s.max_value v)) [
    | inl high ↦ rw (not_low, high, clamp) (h, lt-irreflexive s.max_value)
    | inr not_high ↦ rw (not_low, not_high, clamp) (not_low, not_high)
  ]
]

-- A reading of the sensor.
abbrev pub IsReading : Sensor → Text → SensorData → Type 0
IsReading s sensor_id d = IsWithin s d.value × (d.sensor_id ≡ sensor_id) × (d.unit ≡ s.unit)

-- A message that carries a reading of the sensor, under its topic.
abbrev pub IsMessage : Json → Sensor → Text → Text × Text → Type 0
IsMessage json s sensor_id (topic, payload) =
    (topic ≡ topic_of s.id sensor_id)
    × (d : SensorData) × IsReading s sensor_id d
    × (json.marshal_reading d ≡ ok payload)

reading_of-IsReading :
    (float : Arithmetic) (s : Sensor) (sensor_id : Text) (base : Float) (t : Tick)
    → IsOrdered s
    → IsReading s sensor_id (reading_of float s sensor_id base t)
unfolding reading_of generate_sensor_value
reading_of-IsReading float s sensor_id base t ordered = (clamp-IsWithin s _ ordered, refl, refl)

module _ (json : Json) (s : Sensor) (sensor_id : Text) where
  topic-IsMessage :
      (d : SensorData) (payload : Text)
      → IsReading s sensor_id d
      → json.marshal_reading d ≡ ok payload
      → IsMessage json s sensor_id (topic_of s.id d.sensor_id, payload)
  topic-IsMessage d payload hd coded = (ap (topic_of s.id) hd.1, d, hd, coded)

  publish_data-messages :
      (published : Result (Unit {0})) (d : SensorData) (messages : List (Text × Text))
      → IsReading s sensor_id d
      → All (IsMessage json s sensor_id) messages
      → All (IsMessage json s sensor_id) (publish_data json s.id published d messages).0
  unfolding publish_data
  publish_data-messages (ok u) d messages hd h = elim (Result-cases (json.marshal_reading d)) [
    | inr (why, failed) ↦ rw (failed, publish_data) h
    | inl (payload, coded) ↦
        rw (coded, publish_data)
          (All-append (IsMessage json s sensor_id) messages
            ((topic_of s.id d.sensor_id, payload) ∷ []) h (topic-IsMessage d payload hd coded, tt))
  ]
  publish_data-messages (err e) d messages hd h = elim (Result-cases (json.marshal_reading d)) [
    | inr (why, failed) ↦ rw (failed, publish_data) h
    | inl (payload, coded) ↦ rw (coded, publish_data) h
  ]

  -- Whatever the draws and the results of publishing are, a simulator whose bounds are in order
  -- makes one reading for each tick, each with its sensor id and unit and with a value that is
  -- neither below the least nor above the greatest of its type (a NaN is neither), and the
  -- messages carry such readings under the simulator's topic, if those before did.
  pub run_ticks-IsReading :
      (float : Arithmetic) (ticks : List Tick) (base : Float) (messages : List (Text × Text))
      → IsOrdered s
      → All (IsMessage json s sensor_id) messages
      → let (base', readings, messages') = run_ticks float json s sensor_id ticks base messages in
        (length readings ≡ length ticks)
        × All (IsReading s sensor_id) readings
        × All (IsMessage json s sensor_id) messages'
  unfolding run_ticks
  run_ticks-IsReading float [] base messages ordered h = (refl, tt, h)
  run_ticks-IsReading float (t ∷ ts) base messages ordered h =
      let d : SensorData = reading_of float s sensor_id base t in
      let hd : IsReading s sensor_id d = reading_of-IsReading float s sensor_id base t ordered in
      let (count, all, sent) =
        run_ticks-IsReading float ts (apply_drift float s t.drift_draw base)
          (publish_data json s.id t.published d messages).0 ordered
          (publish_data-messages t.published d messages hd h) in
      (ap suc count, (hd, all), sent)
