-- ===== src/Cmd/SensorTests.antt =====
-- The simulators.
use distributed_systems_go.Base.{
  ◌≡◌, refl, [], ◌∷◌, List, length, text, ok, err, All, true, false, ℕ, Text, eq_text, eq_text_iff,
  ◌==◌, if◌then◌else◌,
}
use distributed_systems_go.Types.Floats.{lt, is_nan}
use distributed_systems_go.Cmd.Fixtures.{codec, still}
use distributed_systems_go.Cmd.Sensor.{light, Tick, run_ticks, topic_of}
use distributed_systems_go.Cmd.Sensor.Manager.{SensorSimulator}
use distributed_systems_go.Cmd.Sensor.Fleet.{
  run_fleet, on_topic, topic_in, IsApart, run_fleet-run_ticks,
}
use distributed_systems_go.Cmd.Sensor.Range.{IsReading, IsMessage, run_ticks-IsReading}

abbrev two_ticks : List Tick
two_ticks =
    record { noise_draw = 0; drift_draw = 0; now = 5; published = ok tt }
    ∷ record { noise_draw = 0; drift_draw = 0; now = 6; published = err (text "closed") }
    ∷ []

run_ticks-IsReading_example :
    let (base', readings, messages') =
      run_ticks still codec light (text "light-1") two_ticks 0xC044_0000_0000_0000 [] in
    (length readings ≡ 2)
    × All (IsReading light (text "light-1")) readings
    × All (IsMessage codec light (text "light-1")) messages'
unfolding lt is_nan
run_ticks-IsReading_example =
    run_ticks-IsReading codec light (text "light-1") still two_ticks 0xC044_0000_0000_0000 [] refl
      tt

-- Minus zero is not below zero, and a NaN is below nothing.
lt_edges :
    (lt 0x8000_0000_0000_0000 0 ≡ false)
    × (lt 0x7FF8_0000_0000_0001 0 ≡ false)
    × (lt 0xC044_0000_0000_0000 0 ≡ true)
unfolding lt is_nan
lt_edges = (refl, refl, refl)

-- two light sensors, whose ticks come in turn
abbrev numbered : Text → SensorSimulator
numbered sensor_id = record {
  sensor_type = light;
  sensor_id = sensor_id;
  connected = true;
  stop_closed = false;
}

abbrev pair : ℕ → SensorSimulator
pair i = if i == 0 then numbered (text "light-1") else numbered (text "light-2")

abbrev tick_of : ℕ → Tick
tick_of now = record { noise_draw = 0; drift_draw = 0; now = now; published = ok tt }

abbrev in_turn : List (ℕ × Tick)
in_turn = (0, tick_of 5) ∷ (1, tick_of 6) ∷ (0, tick_of 7) ∷ []

second-IsApart : IsApart still codec pair 0 (1, tick_of 6)
unfolding topic_of text eq_text
second-IsApart = λ e.
    let same : eq_text (topic_in (pair 1)) (topic_in (pair 0)) ≡ true =
      (eq_text_iff (topic_in (pair 1)) (topic_in (pair 0))).1 e in
    absurd (cc)

run_fleet-run_ticks_example :
    let (bases', ms') = run_fleet still codec pair in_turn (λ i. 42) [] in
    let (base', readings, own') =
      run_ticks still codec light (text "light-1") (tick_of 5 ∷ tick_of 7 ∷ []) 42 [] in
    (bases' 0 ≡ base') × (on_topic (topic_in (pair 0)) ms' ≡ own')
run_fleet-run_ticks_example =
    run_fleet-run_ticks still codec pair 0 in_turn (λ i. 42) [] []
      ((λ e. refl), (second-IsApart, ((λ e. refl), tt))) refl
