-- ===== src/Cmd/Json.antt =====
-- What the programs use of encoding/json: a decoder and encoders for the values that they send.
-- The text of floats and times is that package's, so the codec is a parameter of the programs.
-- Here a time's text depends on the instant alone; Go also prints its location.
use distributed_systems_go.Base.{ℕ, List, Text, Result}
use distributed_systems_go.Types.{SensorData}

pub record Json : Type 0 where
  pub unmarshal_reading : Text → Result SensorData
  pub marshal_reading : SensorData → Result Text
  pub marshal_readings : List SensorData → Result Text
  -- the map of `/performance/2pc`: iterations, and the durations in nanoseconds
  pub marshal_stats : ℕ → ℕ → ℕ → ℕ → Result Text
