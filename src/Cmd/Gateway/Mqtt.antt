-- ===== src/Cmd/Gateway/Mqtt.antt =====
-- cmd/gateway/main.go, `Start` and `subscribeToTopics`: what the gateway asks of the broker.
use distributed_systems_go.Base.{
  Bool, true, List, [], ◌∷◌, ◌++◌, Option, none, some, if◌then◌else◌, Text, text, Result, ok, err,
}
use distributed_systems_go.Cmd.Mqtt.{ClientOptions}
use distributed_systems_go.Cmd.Gateway.{Gateway, Event, arrives}

-- the options of `Start`
abbrev pub gateway_options : Gateway → ClientOptions
gateway_options g = record {
  broker = text "tcp://" ++ g.broker_url;
  client_id = text "iot-gateway";
  clean_session = true;
  auto_reconnect = true;
  keep_alive = some 60_000_000_000;
  ping_timeout = some 10_000_000_000;
}

-- `subscribeToTopics`, on what subscribing yields: the filter, unless it failed
unfoldable pub subscribe_to_topics : Result (Unit {0}) → Option Text
subscribe_to_topics (ok _) = some (text "sensors/+/+")
subscribe_to_topics (err e) = none

-- the calls of `messageHandler` for a broker's messages
unfoldable pub arrivals :
    {S : Type 0} → (Text → Text → Bool) → Option Text → List (Text × Text) → List (Event S)
arrivals matches none ms = []
arrivals matches (some topics) [] = []
arrivals matches (some topics) ((topic, payload) ∷ ms) =
    let rest = arrivals matches (some topics) ms in
    if matches topics topic then arrives payload ∷ rest else rest
