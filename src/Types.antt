-- ===== src/Types.antt =====
-- pkg/types: the readings that travel through the system, and Go's `time` and `float64` as far
-- as the program uses them.
pub mod Floats
use distributed_systems_go.Base.{ℕ, ◌-◌, ◌^◌, min, Bool, Text, ◌==◌}

-- An instant, in nanoseconds since the zero time (1 January of the year 1, UTC). A `time.Time` also has
-- a location, which only shows in its text: a reading that comes back over gRPC is in UTC, one that
-- stays in a program keeps the location it was read with. Locations are not modelled. The program
-- stores instants, tests them for equality and for zero, and takes differences.
abbrev pub Time : Type 0
Time = ℕ

-- `t.IsZero()`
abbrev pub is_zero : Time → Bool
is_zero t = t == 0

-- `t.Equal(u)`
abbrev pub same_time : Time → Time → Bool
same_time t u = t == u

-- `t.Sub(u)` in nanoseconds, which saturates at the largest int64. A negative difference is read
-- as 0: the program only asks whether a difference exceeds a positive bound.
unfoldable pub time_sub : Time → Time → ℕ
time_sub t u = min (t - u) (2 ^ 63 - 1)

-- A float64, as its bit pattern.
abbrev pub Float : Type 0
Float = ℕ

pub record SensorData : Type 0 where
  pub sensor_id : Text
  pub timestamp : Time
  pub value : Float
  pub unit : Text
