-- ===== src/Cmd/Pipeline.antt =====
-- From a simulator through the gateway and the server to the databases: cmd/sensor, cmd/gateway,
-- pkg/http, cmd/server and internal/database at work together. Each message that a simulator
-- publishes arrives at the gateway, which forwards it before the next one arrives.
pub mod Stored
pub mod Unordered
pub mod Contents
pub mod Topics
use distributed_systems_go.Base.{
  ℕ, zero, suc, ◌+◌, ◌≡◌, refl, sym, ap, ap₂, ◌∙◌, false, arith, List, [], ◌∷◌, ◌++◌, map,
  append-nil, append_assoc, Option, none, some, length, Text, text, is_empty, Result, ok, All,
}
use distributed_systems_go.Base.Int.{ℤ}
use distributed_systems_go.Base.Table.{lookup}
use distributed_systems_go.Types.{Float, is_zero, SensorData}
use distributed_systems_go.Types.Floats.{Arithmetic}
use distributed_systems_go.Rpc.{TimestampPb, KeepsTime}
use distributed_systems_go.Database.Service.{Service, add_data_point_internal}
use distributed_systems_go.Database.Coordinator.{generate_transaction_id}
use distributed_systems_go.Database.Coordinator.Commit.{Undisturbed, Answered, IsNew}
use distributed_systems_go.Http.Exchange.{Link}
use distributed_systems_go.Http.Exchange.Loop.{Host, IsSound}
use distributed_systems_go.Cmd.Json.{Json}
use distributed_systems_go.Cmd.Server.{World, stamp}
use distributed_systems_go.Cmd.Store32.{serve_all}
use distributed_systems_go.Cmd.Gateway.{
  Gateway, Event, arrives, forwards, message_handler, count_message, take_out, forward_data,
  forward_one, step, run,
}
use distributed_systems_go.Cmd.Gateway.Answer.{server_url}
use distributed_systems_go.Cmd.Gateway.Forward.{IsForwardable, to_server, forward_data-ok}
use distributed_systems_go.Cmd.Sensor.{
  Sensor, topic_of, publish_data, apply_drift, Tick, reading_of, run_ticks,
}
use distributed_systems_go.Cmd.Sensor.Range.{IsOrdered, IsReading, run_ticks-IsReading}

-- one reading's way: the simulator's tick, the text of its message, and what the server meets
pub record Trip (T : Type 0) : Type 0 where
  pub tick : Tick
  pub payload : Text
  pub world : World T

-- An idle gateway that gets a payload and forwards it with success is idle again.
module _ {S : Type 0} (json : Json) (link : Link S) (payload : Text) (d : SensorData) where
  arrives-forwarding :
      (g : Gateway)
      → json.unmarshal_reading payload ≡ ok d
      → g.forwarding ≡ []
      → message_handler json payload g ≡ record g { forwarding = d ∷ [] }
  unfolding message_handler
  arrives-forwarding g read idle =
      rw (read, message_handler) (ap (λ ds. record g { forwarding = ds ++ d ∷ [] }) idle)

  pub forward_one-counted :
      (others : List SensorData) (g : Gateway) (st st' : S)
      → forward_data json link g.server_url d st ≡ (st', ok tt)
      → forward_one json link (some (d, others)) g st
        ≡ (record g { forwarding = others; message_count = g.message_count + 1 }, st', ok tt ∷ [])
  unfolding forward_one
  forward_one-counted others g st st' forwarded =
      ap
        (λ (x : S × Result (Unit {0})).
          (count_message x.1 (record g { forwarding = others }), x.0, x.1 ∷ []))
        forwarded

  pub run-forwarded :
      (es : List (Event S)) (g : Gateway) (st st' : S)
      → json.unmarshal_reading payload ≡ ok d
      → g.forwarding ≡ []
      → forward_data json link g.server_url d st ≡ (st', ok tt)
      → run json (arrives payload ∷ forwards 0 link ∷ es) g st ≡ (
          let (g', st'', log) =
            run json es (record g { forwarding = []; message_count = g.message_count + 1 }) st' in
          (g', st'', ok tt ∷ log))
  unfolding run step take_out
  run-forwarded es g st st' read idle forwarded =
      ap (λ x. run json (forwards 0 link ∷ es) x st) (arrives-forwarding g read idle)
      ∙ ap
          (λ (x : Gateway × S × List (Result (Unit {0}))).
            let (g', st'', log) = run json es x.0 x.1 in (g', st'', x.2 ++ log))
          (forward_one-counted [] (record g { forwarding = d ∷ [] }) st st' forwarded)

pub serve_all-map :
    (d : SensorData) (ds : List SensorData) (nodes : List Service)
    → map (serve_all ds) (map (add_data_point_internal d) nodes) ≡ map (serve_all (d ∷ ds)) nodes
serve_all-map d ds [] = refl
serve_all-map d ds (s ∷ ss) =
    ap (λ xs. serve_all ds (add_data_point_internal d s) ∷ xs) (serve_all-map d ds ss)

pub serve_all-none : (nodes : List Service) → map (serve_all []) nodes ≡ nodes
serve_all-none [] = refl
serve_all-none (s ∷ ss) = ap (λ xs. s ∷ xs) (serve_all-none ss)

IsNew-map :
    (id : Text) (d : SensorData) (nodes : List Service)
    → IsNew id nodes
    → IsNew id (map (add_data_point_internal d) nodes)
unfolding add_data_point_internal
IsNew-map id d [] h = tt
IsNew-map id d (s ∷ ss) h = (h.0, IsNew-map id d ss h.1)

stamp_self : (now : ℕ) (d : SensorData) → is_zero d.timestamp ≡ false → stamp now d ≡ d
unfolding stamp
stamp_self now d h = rw h refl

-- the transaction id that the server chooses
abbrev pub id_in : {T : Type 0} → World T → Text
id_in w = generate_transaction_id w.trial.random w.trial.unix_nano

-- No database holds one of the transaction ids.
abbrev pub AreNew : {T : Type 0} → List (World T) → List Service → Type 0
AreNew worlds nodes = All (λ w. IsNew (id_in w) nodes) worlds

pub AreNew-map :
    {T : Type 0} (d : SensorData) (worlds : List (World T)) (nodes : List Service)
    → AreNew worlds nodes
    → AreNew worlds (map (add_data_point_internal d) nodes)
AreNew-map d [] nodes h = tt
AreNew-map d (w ∷ ws) nodes h = (IsNew-map (id_in w) d nodes h.0, AreNew-map d ws nodes h.1)

-- Every call between the server and the databases is answered, and nobody interferes there.
abbrev pub IsCalm : {T : Type 0} → World T → Type 0
IsCalm w =
    Undisturbed w.trial.plan.prepares
    × Undisturbed w.trial.plan.commits
    × Answered w.trial.plan.prepares
    × Answered w.trial.plan.commits

-- The reading of a sensor at a time, which the gateway can send and the server can read.
abbrev pub IsAble : Json → Host → Text → ℕ → Text → SensorData → Type 0
IsAble json h host port payload d =
    (is_empty d.sensor_id ≡ false)
    × (is_zero d.timestamp ≡ false)
    × IsForwardable json h.memory host port d payload

-- In a calm world every database stores an able reading as it is.
pub forward_data-calm :
    (pb : TimestampPb) (keeps : KeepsTime pb) (json : Json) (page address : Text) (listen : ℤ)
    (h : Host) (host : Text) (port : ℕ) (w : World pb.Timestamp) (payload : Text) (d : SensorData)
    (url : Text) (nodes : List Service)
    → IsSound h
    → IsAble json h host port payload d
    → IsCalm w
    → IsNew (id_in w) nodes
    → url ≡ server_url host port
    → forward_data json (to_server pb json page address listen w h) url d nodes
      ≡ (map (add_data_point_internal d) nodes, ok tt)
forward_data-calm pb keeps json page address listen h host port w payload d url nodes sound
      (named, timed, able) (alone_p, alone_c, ans_p, ans_c) fresh same =
    ap (λ u. forward_data json (to_server pb json page address listen w h) u d nodes) same
    ∙ forward_data-ok pb keeps json page address listen w h host port d payload nodes sound able
        alone_p alone_c ans_p ans_c named fresh
    ∙ ap (λ x. (map (add_data_point_internal x) nodes, ok tt)) (stamp_self w.now d timed)
