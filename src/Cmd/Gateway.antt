-- ===== src/Cmd/Gateway.antt =====
-- cmd/gateway/main.go: the gateway. It keeps the readings whose goroutines still forward them (the
-- wait group), and the count of forwarded messages. MQTT is an argument: what connecting yields, and
-- which payloads arrive. `S` is the state of the server side.
pub mod Count
pub mod Stop
pub mod Answer
pub mod Forward
pub mod Main
pub mod Mqtt
use distributed_systems_go.Base.{
  ℕ, zero, suc, ◌+◌, Bool, true, false, List, [], ◌∷◌, ◌++◌, Option, none, some, if◌then◌else◌,
  ◌==◌, Text, text, Result, ok, err,
}
use distributed_systems_go.Base.Int.{ℤ, pos, negsuc, show_int}
use distributed_systems_go.Types.{SensorData}
use distributed_systems_go.Http.Message.{Response, status_ok}
use distributed_systems_go.Http.Exchange.{Link, post_json}
use distributed_systems_go.Cmd.Json.{Json}

-- `Gateway`; `mqtt_client` says whether the client is connected, once there is one
pub record Gateway : Type 0 where
  pub server_url : Text
  pub broker_url : Text
  pub mqtt_client : Option Bool
  pub stop_closed : Bool
  pub forwarding : List SensorData
  pub message_count : ℕ

-- `GatewayFactory`
unfoldable pub gateway_factory : Text → Text → Gateway
gateway_factory server_url broker_url = record {
  server_url = server_url;
  broker_url = broker_url;
  mqtt_client = none;
  stop_closed = false;
  forwarding = [];
  message_count = 0;
}

-- `Start`, on the result of connecting
unfoldable pub start : Result (Unit {0}) → Gateway → Gateway × Result (Unit {0})
start (ok _) g = (record g { mqtt_client = some true }, ok tt)
start (err e) g =
    (record g { mqtt_client = some false }, err (text "failed to connect to MQTT broker: " ++ e))

-- `==` on ints
unfoldable pub eq_int : ℤ → ℤ → Bool
eq_int (pos a) (pos b) = a == b
eq_int (negsuc a) (negsuc b) = a == b
eq_int _ _ = false

-- what `forwardData` makes of the server's answer
unfoldable pub check_answer : Result Response → Result (Unit {0})
check_answer (err e) = err (text "error sending data to server: " ++ e)
check_answer (ok r) =
    if eq_int r.status_code status_ok
    then ok tt
    else err (
        text "server returned non-OK status: "
        ++ (show_int r.status_code ++ (b' ' ∷ r.status_text)))

-- `messageHandler` up to its goroutine
unfoldable pub message_handler : Json → Text → Gateway → Gateway
message_handler json payload g = elim (json.unmarshal_reading payload) [
  | err e ↦ g
  | ok d ↦ record g { forwarding = g.forwarding ++ d ∷ [] }
]

-- the end of a goroutine of `messageHandler`: only a success is counted
abbrev pub count_message : Result (Unit {0}) → Gateway → Gateway
count_message (ok _) g = record g { message_count = g.message_count + 1 }
count_message (err e) g = g

-- the `i`-th of the goroutines, and the others
unfoldable pub take_out : {A : Type 0} → ℕ → List A → Option (A × List A)
take_out i [] = none
take_out zero (x ∷ xs) = some (x, xs)
take_out (suc i) (x ∷ xs) = elim (take_out i xs) [ none ↦ none | some (y, ys) ↦ some (y, x ∷ ys) ]

module _ {S : Type 0} (json : Json) where
  -- `forwardData`
  unfoldable pub forward_data : Link S → Text → SensorData → S → S × Result (Unit {0})
  forward_data link url d st = elim (json.marshal_reading d) [
    | err e ↦ (st, err (text "error marshaling data to JSON: " ++ e))
    | ok body ↦
        let (st', answer) = post_json link (url ++ text "/data") body st in
        (st', check_answer answer)
  ]

  -- the goroutine that forwards a reading, with the result that it logs
  unfoldable pub forward_one :
      Link S
      → Option (SensorData × List SensorData)
      → Gateway
      → S
      → Gateway × S × List (Result (Unit {0}))
  forward_one link none g st = (g, st, [])
  forward_one link (some (d, others)) g st =
      let (st', r) = forward_data link g.server_url d st in
      (count_message r (record g { forwarding = others }), st', r ∷ [])

-- what happens: a payload arrives, the `i`-th goroutine meets its network and ends, or the server
-- side changes by itself
pub data Event (S : Type 0) : Type 0 where
  arrives : Text → Event S
  forwards : ℕ → Link S → Event S
  elsewhere : (S → S) → Event S

module _ {S : Type 0} (json : Json) where
  unfoldable pub step : Event S → Gateway → S → Gateway × S × List (Result (Unit {0}))
  step (arrives payload) g st = (message_handler json payload g, st, [])
  step (forwards i link) g st = forward_one json link (take_out i g.forwarding) g st
  step (elsewhere f) g st = (g, f st, [])

  -- a run, with the results of the forwards in the order of the log
  unfoldable pub run : List (Event S) → Gateway → S → Gateway × S × List (Result (Unit {0}))
  run [] g st = (g, st, [])
  run (e ∷ es) g st =
      let (g', st', log) = step e g st in
      let (g'', st'', later) = run es g' st' in (g'', st'', log ++ later)

-- what `Stop` comes to: closing the channel twice is a panic, and the wait group may not be empty yet
pub data Stopped (S : Type 0) : Type 0 where
  panicked : Stopped S
  waiting : Gateway → S → Stopped S
  stopped : Gateway → S → Stopped S

-- `if g.MQTTClient != nil && g.MQTTClient.IsConnected()`
abbrev pub disconnected : Option Bool → Option Bool
disconnected none = none
disconnected (some _) = some false

abbrev pub when_done : {S : Type 0} → List SensorData → Gateway → S → Stopped S
when_done [] g st = stopped (record g { mqtt_client = disconnected g.mqtt_client }) st
when_done (_ ∷ _) g st = waiting g st

-- `Stop`, with what happens while it waits
unfoldable pub stop : {S : Type 0} → Json → List (Event S) → Gateway → S → Stopped S
stop json es g st =
    let (g', st', log) = run json es (record g { stop_closed = true }) st in
    if g.stop_closed then panicked else when_done g'.forwarding g' st'
