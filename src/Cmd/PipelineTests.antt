-- ===== src/Cmd/PipelineTests.antt =====
-- Two ticks of a simulator on their way to two databases.
use distributed_systems_go.Base.{
  ◌≡◌, refl, [], ◌∷◌, arith, length, text, ok, All, false, true, some, map, List,
}
use distributed_systems_go.Base.Int.{pos}
use distributed_systems_go.Base.Table.{lookup}
use distributed_systems_go.Types.{Time}
use distributed_systems_go.Types.Floats.{lt, is_nan}
use distributed_systems_go.Database.Fixtures.{instants, instants-KeepsTime, reading}
use distributed_systems_go.Http.Fixtures.{host, host-IsSound}
use distributed_systems_go.Cmd.Fixtures.{codec, good_world, servers, still}
use distributed_systems_go.Cmd.Gateway.{Gateway, run, step, message_handler}
use distributed_systems_go.Cmd.Gateway.Stop.{run-Ends}
use distributed_systems_go.Cmd.Gateway.Answer.{server_url}
use distributed_systems_go.Cmd.Sensor.{
  Sensor, run_ticks, reading_of, generate_sensor_value, clamp, apply_drift,
}
use distributed_systems_go.Cmd.Sensor.Range.{IsReading}
use distributed_systems_go.Cmd.Pipeline.{Trip, IsAble, IsCalm}
use distributed_systems_go.Base.Bag.{put_all}
use distributed_systems_go.Database.Service.{Service}
use distributed_systems_go.Cmd.Pipeline.Unordered.{Happening, receives, sends}
use distributed_systems_go.Cmd.Pipeline.Unordered.{events_of as happenings_of}
use distributed_systems_go.Cmd.Pipeline.Contents.{contents, contents-run}
use distributed_systems_go.Cmd.Pipeline.Stored.{
  AreSmooth, AreStored, ticks_of, events_of, run-run_ticks,
}

-- a sensor with one value
abbrev constant : Sensor
constant = record {
  id = text "c";
  name = text "Constant";
  min_value = 42;
  max_value = 42;
  unit = b'C' ∷ [];
  noise_level = 0;
  data_generation_interval = 1000;
}

abbrev trip : Trip Time
trip = record {
  tick = record { noise_draw = 0; drift_draw = 0; now = 9; published = ok tt };
  payload = 3 ∷ [];
  world = good_world;
}

abbrev idle : Gateway
idle = record {
  server_url = server_url (text "localhost") 8080;
  broker_url = text "mqtt:1883";
  mqtt_client = some true;
  stop_closed = false;
  forwarding = [];
  message_count = 5;
}

-- a reading that the fixtures' gateway can send and their server can read
able : IsAble codec host (text "localhost") 8080 (3 ∷ []) (reading 3 9)
unfolding text
able = (
  refl,
  refl,
  ((ground arith, ground arith, omega arith), refl, refl, (omega arith, omega arith, omega arith)),
)

calm : IsCalm good_world
calm = (λ i. refl, λ i. refl, λ i. refl, λ i. refl)

trips-AreSmooth :
    AreSmooth codec host (text "localhost") 8080 still constant (3 ∷ []) 42 (trip ∷ trip ∷ [])
unfolding reading_of generate_sensor_value clamp apply_drift lt is_nan
trips-AreSmooth = ((refl, able, calm), ((refl, able, calm), tt))

run-run_ticks_example :
    let simulated = run_ticks still codec constant (3 ∷ []) (ticks_of (trip ∷ trip ∷ [])) 42 [] in
    AreStored
      (trip ∷ trip ∷ [])
      constant
      (3 ∷ [])
      []
      idle
      servers
      simulated
      (run codec (events_of instants codec [] [] (pos 8080) host (trip ∷ trip ∷ [])) idle servers)
    × (length simulated.1 ≡ 2)
    × All (IsReading constant (3 ∷ [])) simulated.1
unfolding lt is_nan lookup
run-run_ticks_example =
    run-run_ticks instants instants-KeepsTime codec [] [] (pos 8080) host (text "localhost") 8080
      host-IsSound still constant (3 ∷ []) (trip ∷ trip ∷ []) 42 idle servers refl trips-AreSmooth
      ((refl, (refl, tt)), ((refl, (refl, tt)), tt)) refl refl

-- two databases with room for two more readings
abbrev roomy : List Service
roomy = map (λ (s : Service). record s { max_data_points = 4 }) servers

-- Two readings arrive, and the second is forwarded first.
abbrev crossing : List (Happening Time)
crossing = receives (3 ∷ []) ∷ receives (4 ∷ []) ∷ sends 1 good_world ∷ sends 0 good_world ∷ []

fits : IsAble codec host (text "localhost") 8080 (4 ∷ []) (reading 4 9)
unfolding text
fits = (
  refl,
  refl,
  ((ground arith, ground arith, omega arith), refl, refl, (omega arith, omega arith, omega arith)),
)

crossing-idle :
    (run codec
      (happenings_of instants codec [] [] (pos 8080) host crossing)
      idle
      roomy).0.forwarding
    ≡ []
unfolding run step message_handler
crossing-idle =
    run-Ends codec 2
      (happenings_of instants codec [] [] (pos 8080) host
        (sends 1 good_world ∷ sends 0 good_world ∷ []))
      (record idle { forwarding = reading 3 9 ∷ reading 4 9 ∷ [] }) roomy refl
      (omega arith, (omega arith, tt))

contents-run_example :
    map contents
      (run codec (happenings_of instants codec [] [] (pos 8080) host crossing) idle roomy).1
    ≡ map (λ s. put_all (reading 3 9 ∷ reading 4 9 ∷ []) (contents s)) roomy
unfolding lookup
contents-run_example =
    contents-run instants instants-KeepsTime codec [] [] (pos 8080) host (text "localhost") 8080
      host-IsSound crossing idle roomy refl refl ((3 ∷ [], able), ((4 ∷ [], fits), tt))
      (calm, (calm, tt)) ((refl, (refl, tt)), ((refl, (refl, tt)), tt))
      (omega arith, (omega arith, tt)) crossing-idle
