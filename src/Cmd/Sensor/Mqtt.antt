-- ===== src/Cmd/Sensor/Mqtt.antt =====
-- cmd/sensor/main.go, `createSensorSimulator`: the options of a simulator's MQTT client. A broker
-- closes a connection when another client connects with its id, so the ids must differ.
use distributed_systems_go.Base.{
  ℕ, ◌^◌, ◌<◌, ◌≡◌, ◌≢◌, refl, ap, ◌∙◌, arith, true, List, [], ◌∷◌, ◌++◌, map, none, Text, text,
  Result, ok, All,
}
use distributed_systems_go.Base.Int.{ℤ, pos}
use distributed_systems_go.Cmd.Mqtt.{ClientOptions}
use distributed_systems_go.Cmd.Gateway.{Gateway}
use distributed_systems_go.Cmd.Gateway.Mqtt.{gateway_options}
use distributed_systems_go.Cmd.Sensor.{sensors}
use distributed_systems_go.Cmd.Sensor.Manager.{SensorSimulator, new_sensor_manager, start_manager}
use distributed_systems_go.Cmd.Sensor.Manager.Start.{all_simulators, start_manager-ok}
use distributed_systems_go.Cmd.Sensor.Manager.Ids.{
  AreDifferent, ids, first_byte, sensors-IsDashless, sensors-AreDifferent,
  all_simulators-AreDifferent,
}

-- the options of `createSensorSimulator`
abbrev pub simulator_options : Text → SensorSimulator → ClientOptions
simulator_options broker_url s = record {
  broker = text "tcp://" ++ broker_url;
  client_id = text "sensor-" ++ s.sensor_id;
  clean_session = true;
  auto_reconnect = true;
  keep_alive = none;
  ping_timeout = none;
}

-- a simulator's client id, and that of the gateway
client_id_of : Text → Text
client_id_of sensor_id = text "sensor-" ++ sensor_id

client_id_of-apart :
    (sensor_id : Text) (ids : List Text)
    → All (λ u. sensor_id ≢ u) ids
    → All (λ u. client_id_of sensor_id ≢ u) (map client_id_of ids)
unfolding client_id_of text
client_id_of-apart sensor_id [] apart = tt
client_id_of-apart sensor_id (u ∷ us) apart =
    (λ e. apart.0 (cc), client_id_of-apart sensor_id us apart.1)

client_ids : (ids : List Text) → AreDifferent ids → AreDifferent (map client_id_of ids)
client_ids [] different = tt
client_ids (t ∷ ts) different = (client_id_of-apart t ts different.0, client_ids ts different.1)

gateway-apart : (ids : List Text) → All (λ u. text "iot-gateway" ≢ u) (map client_id_of ids)
unfolding client_id_of text
gateway-apart [] = tt
gateway-apart (t ∷ ts) = (λ e. absurd (omega (arith, first_byte e)), gateway-apart ts)

client_ids_of :
    (broker_url : Text) (ss : List SensorSimulator)
    → map (λ (o : ClientOptions). o.client_id) (map (simulator_options broker_url) ss)
      ≡ map client_id_of (ids ss)
unfolding client_id_of
client_ids_of broker_url [] = refl
client_ids_of broker_url (s ∷ ss) =
    ap (λ ts. client_id_of s.sensor_id ∷ ts) (client_ids_of broker_url ss)

-- The clients of the gateway and of all simulators that a new manager's `Start` makes, if every
-- connection succeeds, have client ids that all differ, if the asked number fits an int.
pub start_manager-AreDifferent :
    (connects : ℕ → Result (Unit {0})) (g : Gateway) (broker_url : Text) (n : ℕ) (duration : ℤ)
    → ((i : ℕ) → connects i ≡ ok tt)
    → n < 2 ^ 63
    → let started = start_manager connects (new_sensor_manager broker_url (pos n) duration) in
      AreDifferent (
        map
          (λ (o : ClientOptions). o.client_id)
          (gateway_options g ∷ map (simulator_options broker_url) started.0.simulators))
start_manager-AreDifferent connects g broker_url n duration good small =
    let made : (start_manager connects
          (new_sensor_manager broker_url (pos n) duration)).0.simulators
        ≡ all_simulators n sensors =
      (start_manager-ok connects broker_url n duration good).0 in
    let same : map (λ (o : ClientOptions). o.client_id)
          (map (simulator_options broker_url)
            (start_manager connects (new_sensor_manager broker_url (pos n) duration)).0.simulators)
        ≡ map client_id_of (ids (all_simulators n sensors)) =
      ap (λ ss. map (λ (o : ClientOptions). o.client_id) (map (simulator_options broker_url) ss))
        made
      ∙ client_ids_of broker_url (all_simulators n sensors) in
    rw same (
      gateway-apart (ids (all_simulators n sensors)),
      client_ids _
          (all_simulators-AreDifferent n small sensors sensors-IsDashless sensors-AreDifferent),
    )
