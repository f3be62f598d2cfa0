-- ===== src/Cmd/Fixtures.antt =====
-- Test data: a codec, and a server over two databases.
use distributed_systems_go.Base.{[], ◌∷◌, List, map, none, text, ok, err}
use distributed_systems_go.Types.{Time, SensorData}
use distributed_systems_go.Types.Floats.{Arithmetic}
use distributed_systems_go.Database.Service.{Service}
use distributed_systems_go.Database.Client.{delivered}
use distributed_systems_go.Database.Coordinator.{Plan}
use distributed_systems_go.Database.Fixtures.{reading, server, full_server, answered, plan_of}
use distributed_systems_go.Cmd.Json.{Json}
use distributed_systems_go.Cmd.Server.{World, Trial}

-- a codec in which a reading's text is its sensor id
abbrev pub codec : Json
codec = record {
  unmarshal_reading =
      λ t. elim t [ [] ↦ err (text "unexpected end of JSON input") | c ∷ cs ↦ ok (reading c 9) ];
  marshal_reading = λ d. ok d.sensor_id;
  marshal_readings = λ ds. ok (map (λ (d : SensorData). d.value) ds);
  marshal_stats = λ n low high avg. ok (n ∷ low ∷ high ∷ avg ∷ []);
}

abbrev pub trial_of : Plan Time → Trial Time
trial_of plan = record { plan = plan; random = none; unix_nano = 7; started = 100; rtt = 5 }

abbrev pub world_of : Plan Time → World Time
world_of plan = record {
  now = 100;
  trial = trial_of plan;
  read_fate = delivered;
  trials = λ i. trial_of plan;
}

abbrev pub good_world : World Time
good_world = world_of (plan_of answered answered)

abbrev pub servers : List Service
servers = server ∷ full_server ∷ []

-- an arithmetic that keeps its first argument
abbrev pub still : Arithmetic
still = record { add = λ x y. x; sub = λ x y. x; mul = λ x y. x }
