-- ===== src/Cmd/Sensor.antt =====
-- cmd/sensor/main.go: the sensor simulators. `rand.Float64` gives the draws, MQTT the results of
-- connecting and publishing; both are arguments. A run of a simulator is the list of its ticks.
pub mod Range
pub mod Manager
pub mod Main
pub mod Fleet
pub mod Mqtt
use distributed_systems_go.Base.{
  ℕ, zero, suc, ◌+◌, Bool, true, false, List, [], ◌∷◌, ◌++◌, if◌then◌else◌, length, Text, text,
  decimal, Result, ok, err,
}
use distributed_systems_go.Types.{Time, Float, SensorData}
use distributed_systems_go.Types.Floats.{Arithmetic, lt}
use distributed_systems_go.Cmd.Json.{Json}

-- `types.Sensor`
pub record Sensor : Type 0 where
  pub id : Text
  pub name : Text
  pub min_value : Float
  pub max_value : Float
  pub unit : Text
  pub noise_level : Float
  pub data_generation_interval : ℕ

-- the four types of `sensors`; the degree sign is its two bytes
abbrev pub temperature : Sensor
temperature = record {
  id = text "temp";
  name = text "Temperature Sensor";
  min_value = 0xC044_0000_0000_0000;
  max_value = 0x4060_4000_0000_0000;
  unit = 0xC2 ∷ 0xB0 ∷ b'C' ∷ [];
  noise_level = 0x3FA9_9999_9999_999A;
  data_generation_interval = 1000;
}

abbrev pub humidity : Sensor
humidity = record {
  id = text "humid";
  name = text "Humidity Sensor";
  min_value = 0x403E_0000_0000_0000;
  max_value = 0x4054_0000_0000_0000;
  unit = text "%";
  noise_level = 0x3FA9_9999_9999_999A;
  data_generation_interval = 500;
}

abbrev pub pressure : Sensor
pressure = record {
  id = text "press";
  name = text "Pressure Sensor";
  min_value = 0x408E_A000_0000_0000;
  max_value = 0x408F_E000_0000_0000;
  unit = text "hPa";
  noise_level = 0x3F84_7AE1_47AE_147B;
  data_generation_interval = 2000;
}

abbrev pub light : Sensor
light = record {
  id = text "light";
  name = text "Light Sensor";
  min_value = 0;
  max_value = 0x408F_4000_0000_0000;
  unit = text "cd";
  noise_level = 0x3FB9_9999_9999_999A;
  data_generation_interval = 1500;
}

abbrev pub sensors : List Sensor
sensors = temperature ∷ humidity ∷ pressure ∷ light ∷ []

-- the value itself, or the bound that it is beyond
unfoldable pub clamp : Sensor → Float → Float
clamp s v = if lt v s.min_value then s.min_value else if lt s.max_value v then s.max_value else v

abbrev pub one : Float
one = 0x3FF0_0000_0000_0000

abbrev pub two : Float
two = 0x4000_0000_0000_0000

abbrev pub thousandth : Float
thousandth = 0x3F50_624D_D2F1_A9FC

module _ (float : Arithmetic) where
  open float use {add, sub, mul}

  -- `rand.Float64()*2 - 1`
  abbrev pub spread : Float → Float
  spread draw = sub (mul draw two) one

  -- the first base value of `SensorSimulator.Start`
  unfoldable pub first_value : Sensor → Float → Float
  first_value s draw = add s.min_value (mul draw (sub s.max_value s.min_value))

  -- `generateSensorValue`
  unfoldable pub generate_sensor_value : Sensor → Float → Float → Float
  generate_sensor_value s draw base =
      let noise = mul (mul (spread draw) s.noise_level) base in clamp s (add base noise)

  -- `applyDrift`
  unfoldable pub apply_drift : Sensor → Float → Float → Float
  apply_drift s draw base =
      let drift_range = mul (sub s.max_value s.min_value) thousandth in
      let drift = mul (spread draw) drift_range in clamp s (add base drift)

-- the topic of `publishData`
unfoldable pub topic_of : Text → Text → Text
topic_of type_id sensor_id = text "sensors/" ++ (type_id ++ (b'/' ∷ sensor_id))

-- `publishData`, on the broker's messages and on what publishing yields
unfoldable pub publish_data :
    Json
    → Text
    → Result (Unit {0})
    → SensorData
    → List (Text × Text)
    → List (Text × Text) × Result (Unit {0})
publish_data json type_id published d messages = elim (json.marshal_reading d) [
  | err e ↦ (messages, err (text "failed to marshal sensor data: " ++ e))
  | ok payload ↦ elim published [
    | ok _ ↦ (messages ++ (topic_of type_id d.sensor_id, payload) ∷ [], ok tt)
    | err e ↦ (
      messages,
      err (
          text "failed to publish to topic " ++ (topic_of type_id d.sensor_id ++ (text ": " ++ e))),
    )
  ]
]

-- what one tick meets: two draws, the clock, and the result of publishing
pub record Tick : Type 0 where
  pub noise_draw : Float
  pub drift_draw : Float
  pub now : Time
  pub published : Result (Unit {0})

module _ (float : Arithmetic) where
  -- the reading of a tick
  unfoldable pub reading_of : Sensor → Text → Float → Tick → SensorData
  reading_of s sensor_id base t = record {
    sensor_id = sensor_id;
    timestamp = t.now;
    value = generate_sensor_value float s t.noise_draw base;
    unit = s.unit;
  }

module _ (float : Arithmetic) (json : Json) where
  -- the loop of `SensorSimulator.Start` over the ticks until the stop: the base value left, the
  -- readings made, and the broker's messages
  unfoldable pub run_ticks :
      Sensor
      → Text
      → List Tick
      → Float
      → List (Text × Text)
      → Float × List SensorData × List (Text × Text)
  run_ticks s sensor_id [] base messages = (base, [], messages)
  run_ticks s sensor_id (t ∷ ts) base messages =
      let d = reading_of float s sensor_id base t in
      let (messages', r) = publish_data json s.id t.published d messages in
      let (base', ds, messages'') =
        run_ticks s sensor_id ts (apply_drift float s t.drift_draw base) messages' in
      (base', d ∷ ds, messages'')
