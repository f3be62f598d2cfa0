-- ===== src/Cmd/Pipeline/Stored.antt =====
-- What a simulator publishes, every database stores.
use distributed_systems_go.Base.{
  length-map, ℕ, ◌+◌, ◌≡◌, refl, sym, ap, ◌∙◌, arith, List, [], ◌∷◌, ◌++◌, map, append-nil,
  append_assoc, length, Text, Result, ok, All,
}
use distributed_systems_go.Base.Int.{ℤ}
use distributed_systems_go.Types.{Float, SensorData}
use distributed_systems_go.Types.Floats.{Arithmetic}
use distributed_systems_go.Rpc.{TimestampPb, KeepsTime}
use distributed_systems_go.Database.Service.{Service, add_data_point_internal}
use distributed_systems_go.Http.Exchange.Loop.{Host, IsSound}
use distributed_systems_go.Cmd.Json.{Json}
use distributed_systems_go.Cmd.Server.{World}
use distributed_systems_go.Cmd.Store32.{serve_all}
use distributed_systems_go.Cmd.Gateway.{Gateway, Event, arrives, forwards, run}
use distributed_systems_go.Cmd.Gateway.Answer.{server_url}
use distributed_systems_go.Cmd.Gateway.Forward.{to_server}
use distributed_systems_go.Cmd.Sensor.{
  Sensor, topic_of, publish_data, apply_drift, Tick, reading_of, run_ticks,
}
use distributed_systems_go.Cmd.Sensor.Range.{IsOrdered, IsReading, run_ticks-IsReading}
use distributed_systems_go.Cmd.Pipeline.{
  Trip, run-forwarded, serve_all-map, serve_all-none, AreNew, AreNew-map, IsCalm, IsAble,
  forward_data-calm,
}

abbrev pub worlds_of : {T : Type 0} → List (Trip T) → List (World T)
worlds_of trips = map (λ t. t.world) trips

abbrev pub ticks_of : {T : Type 0} → List (Trip T) → List Tick
ticks_of trips = map (λ t. t.tick) trips

publish_data-ok :
    (json : Json) (float : Arithmetic) (s : Sensor) (sensor_id payload : Text) (base : Float)
    (t : Tick) (messages : List (Text × Text))
    → t.published ≡ ok tt
    → json.marshal_reading (reading_of float s sensor_id base t) ≡ ok payload
    → (publish_data json s.id t.published (reading_of float s sensor_id base t) messages).0
      ≡ messages ++ (topic_of s.id sensor_id, payload) ∷ []
unfolding publish_data reading_of
publish_data-ok json float s sensor_id payload base t messages published coded =
    rw (coded, publish_data, published) refl

-- the messages of the trips
abbrev pub messages_of : {T : Type 0} → Sensor → Text → List (Trip T) → List (Text × Text)
messages_of s sensor_id trips = map (λ t. (topic_of s.id sensor_id, t.payload)) trips

-- The reading is published and forwarded, and every call for it is answered.
abbrev pub IsSmooth : {T : Type 0} → Json → Host → Text → ℕ → SensorData → Trip T → Type 0
IsSmooth json h host port d t =
    (t.tick.published ≡ ok tt) × IsAble json h host port t.payload d × IsCalm t.world

-- This holds of each reading that the simulator makes from its base value on.
abbrev pub AreSmooth :
    {T : Type 0}
    → Json
    → Host
    → Text
    → ℕ
    → Arithmetic
    → Sensor
    → Text
    → Float
    → List (Trip T)
    → Type 0
AreSmooth json h host port float s sensor_id base [] = Unit
AreSmooth json h host port float s sensor_id base (t ∷ ts) =
    IsSmooth json h host port (reading_of float s sensor_id base t.tick) t
    × AreSmooth json h host port float s sensor_id (apply_drift float s t.tick.drift_draw base) ts

-- What a whole run comes to: the broker has the messages of the trips, the gateway has counted each
-- and is idle, and the readings are in every database in their order.
abbrev pub AreStored :
    {T : Type 0}
    → List (Trip T)
    → Sensor
    → Text
    → List (Text × Text)
    → Gateway
    → List Service
    → Float × List SensorData × List (Text × Text)
    → Gateway × List Service × List (Result (Unit {0}))
    → Type 0
AreStored trips s sensor_id messages g nodes (base', readings, messages') (g', nodes', log) =
    (messages' ≡ messages ++ messages_of s sensor_id trips)
    × (g'.message_count ≡ g.message_count + length trips)
    × (g'.forwarding ≡ [])
    × (nodes' ≡ map (serve_all readings) nodes)

-- the gateway's events: each message arrives and is forwarded to the server
abbrev pub events_of :
    (pb : TimestampPb)
    → Json
    → Text
    → Text
    → ℤ
    → Host
    → List (Trip pb.Timestamp)
    → List (Event (List Service))
events_of pb json page address listen h [] = []
events_of pb json page address listen h (t ∷ ts) =
    arrives t.payload
    ∷ forwards 0 (to_server pb json page address listen t.world h)
    ∷ events_of pb json page address listen h ts

module _ (pb : TimestampPb) (keeps : KeepsTime pb) (json : Json) (page address : Text) (listen : ℤ)
    (h : Host) (host : Text) (port : ℕ) (sound : IsSound h) where
  open pb use {Timestamp}

  one_more :
      (s : Sensor) (sensor_id : Text) (t : Trip Timestamp) (ts : List (Trip Timestamp))
      (messages : List (Text × Text))
      → (messages ++ (topic_of s.id sensor_id, t.payload) ∷ []) ++ messages_of s sensor_id ts
        ≡ messages ++ messages_of s sensor_id (t ∷ ts)
  one_more s sensor_id t ts messages =
      append_assoc messages ((topic_of s.id sensor_id, t.payload) ∷ []) (messages_of s sensor_id ts)

  stored_from :
      (float : Arithmetic) (s : Sensor) (sensor_id : Text) (trips : List (Trip Timestamp))
      (base : Float) (messages : List (Text × Text)) (g : Gateway) (nodes : List Service)
      → AreSmooth json h host port float s sensor_id base trips
      → AreNew (worlds_of trips) nodes
      → g.server_url ≡ server_url host port
      → g.forwarding ≡ []
      → AreStored trips s sensor_id messages g nodes
          (run_ticks float json s sensor_id (ticks_of trips) base messages)
          (run json (events_of pb json page address listen h trips) g nodes)
  unfolding run_ticks run reading_of
  stored_from float s sensor_id [] base messages g nodes smooth fresh url idle =
      (sym (append-nil messages), omega arith, idle, sym (serve_all-none nodes))
  stored_from float s sensor_id (t ∷ ts) base messages g nodes (first, rest) fresh url idle =
      let (published, able, calm) = first in
      let (named, timed, sendable) = able in
      let d : SensorData = reading_of float s sensor_id base t.tick in
      let base' : Float = apply_drift float s t.tick.drift_draw base in
      let messages' : List (Text × Text) = (publish_data json s.id t.tick.published d messages).0 in
      let g' : Gateway = record g { forwarding = []; message_count = g.message_count + 1 } in
      let nodes' : List Service = map (add_data_point_internal d) nodes in
      let readings : List SensorData =
        (run_ticks float json s sensor_id (ticks_of ts) base' messages').1 in
      let (sent, count, quiet, stored) =
        stored_from float s sensor_id ts base' messages' g' nodes' rest
          (AreNew-map d (worlds_of ts) nodes fresh.1) url refl in
      let through =
        run-forwarded json (to_server pb json page address listen t.world h) t.payload d
          (events_of pb json page address listen h ts) g nodes nodes' sendable.2 idle
          (forward_data-calm pb keeps json page address listen h host port t.world t.payload d
            g.server_url nodes sound able calm fresh.0 url) in
      rw through (
        sent
            ∙ ap (λ ms. ms ++ messages_of s sensor_id ts)
                (publish_data-ok json float s sensor_id t.payload base t.tick messages published
                  sendable.1)
            ∙ one_more s sensor_id t ts messages,
        omega (arith, count),
        quiet,
        stored ∙ serve_all-map d readings nodes,
      )

  -- A simulator with bounds in order and a sensor id runs for some ticks, each at a time other
  -- than zero and with its message published, and the messages arrive at an idle gateway, each
  -- forwarded before the next. The readings' JSON is read back and fits into the server's memory,
  -- the server's host is plain, its port fits an int and its answers arrive as written, every call
  -- between the server and the databases is answered, nobody interferes there and no database
  -- holds one of the transaction ids. Then the broker has the simulator's messages, the gateway
  -- has counted each of them and is idle, and every database has stored the readings of all ticks
  -- in their order, each with the simulator's id and unit and a value neither below nor above the
  -- sensor's range.
  pub run-run_ticks :
      (float : Arithmetic) (s : Sensor) (sensor_id : Text) (trips : List (Trip Timestamp))
      (base : Float) (g : Gateway) (nodes : List Service)
      → IsOrdered s
      → AreSmooth json h host port float s sensor_id base trips
      → AreNew (worlds_of trips) nodes
      → g.server_url ≡ server_url host port
      → g.forwarding ≡ []
      → let simulated = run_ticks float json s sensor_id (ticks_of trips) base [] in
        AreStored trips s sensor_id [] g nodes simulated
          (run json (events_of pb json page address listen h trips) g nodes)
        × (length simulated.1 ≡ length trips)
        × All (IsReading s sensor_id) simulated.1
  run-run_ticks float s sensor_id trips base g nodes ordered smooth fresh url idle =
      let (count, all, sent) =
        run_ticks-IsReading json s sensor_id float (ticks_of trips) base [] ordered tt in
      (
        stored_from float s sensor_id trips base [] g nodes smooth fresh url idle,
        count ∙ length-map (λ t. t.tick) trips,
        all,
      )
