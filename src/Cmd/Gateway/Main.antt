-- ===== src/Cmd/Gateway/Main.antt =====
-- cmd/gateway/main.go, `main`, on the values of the flags. `connect` is what connecting to the broker
-- yields, `before` what happens until the signal or the end of the duration, and `during` what
-- happens while `Stop` waits.
use distributed_systems_go.Base.{
  ◌+◌, ◌≤◌, ◌≡◌, ◌≢◌, refl, ap, ◌∙◌, inl, inr, false, true, List, [], ◌∷◌, ◌++◌, some, Option-cases,
  length, Text, text, Result, Result-cases, ok, err,
}
use distributed_systems_go.Base.Int.{ℤ, show_int}
use distributed_systems_go.Cmd.Json.{Json}
use distributed_systems_go.Cmd.Program.{Exit, fatal, panicked, at_work, finished}
use distributed_systems_go.Cmd.Gateway.{
  Gateway, gateway_factory, start, message_handler, count_message, take_out, forward_one, Event,
  arrives, forwards, elsewhere, step, run, Stopped, panicked as stop_panicked, waiting, stopped,
  disconnected, when_done, stop,
}
use distributed_systems_go.Cmd.Gateway.Count.{accepted}
use distributed_systems_go.Cmd.Gateway.Stop.{Ends, run-Ends}

-- the flags; the duration only bounds what happens before
pub record Flags : Type 0 where
  pub server_host : Text
  pub server_port : ℤ
  pub mqtt_host : Text
  pub mqtt_port : ℤ

-- `"%s:%d"`
abbrev pub host_port : Text → ℤ → Text
host_port host port = host ++ (b':' ∷ show_int port)

-- the gateway that `main` makes
unfoldable pub gateway_for : Flags → Gateway
gateway_for f =
    gateway_factory (text "http://" ++ host_port f.server_host f.server_port)
      (host_port f.mqtt_host f.mqtt_port)

module _ {S : Type 0} where
  abbrev pub exit_of : Stopped S → Exit (Gateway × S)
  exit_of stop_panicked = panicked
  exit_of (waiting g st) = at_work (g, st)
  exit_of (stopped g st) = finished (g, st)

  unfoldable pub after_start :
      Json → List (Event S) → List (Event S) → Gateway × Result (Unit {0}) → S → Exit (Gateway × S)
  after_start json before during (g, err e) st = fatal (text "Failed to start gateway: " ++ e)
  after_start json before during (g, ok _) st =
      let (g', st', log) = run json before g st in exit_of (stop json during g' st')

  -- `main`
  unfoldable pub main :
      Json → Flags → Result (Unit {0}) → List (Event S) → List (Event S) → S → Exit (Gateway × S)
  unfolding after_start
  main json f connect before during st =
      after_start json before during (start connect (gateway_for f)) st

count_message-stop_closed :
    (r : Result (Unit {0})) (g : Gateway) → (count_message r g).stop_closed ≡ g.stop_closed
count_message-stop_closed (ok u) g = refl
count_message-stop_closed (err e) g = refl

module _ {S : Type 0} where
  step-stop_closed :
      (json : Json) (e : Event S) (g : Gateway) (st : S)
      → (step json e g st).0.stop_closed ≡ g.stop_closed
  unfolding step message_handler forward_one
  step-stop_closed json (arrives payload) g st =
      elim (Result-cases (json.unmarshal_reading payload)) [
        | inl (d, read) ↦ rw (read, message_handler) refl
        | inr (why, refused) ↦ rw (refused, message_handler) refl
      ]
  step-stop_closed json (forwards i link) g st = elim (Option-cases (take_out i g.forwarding)) [
    | inl missing ↦ rw (missing, forward_one) refl
    | inr ((d, others), found) ↦ rw (found, forward_one) (count_message-stop_closed _ _)
  ]
  step-stop_closed json (elsewhere f) g st = refl

  run-stop_closed :
      (json : Json) (es : List (Event S)) (g : Gateway) (st : S)
      → (run json es g st).0.stop_closed ≡ g.stop_closed
  unfolding run
  run-stop_closed json [] g st = refl
  run-stop_closed json (e ∷ es) g st =
      let (g', st', log) = step json e g st in
      run-stop_closed json es g' st' ∙ step-stop_closed json e g st

-- `main` has ended, and then nothing is being forwarded and the client is not connected; or it still
-- waits for goroutines that forward. The messages counted and those being forwarded are at most
-- the readings that arrived.
abbrev pub IsDrained :
    {S : Type 0} → Json → List (Event S) → List (Event S) → Exit (Gateway × S) → Type 0
IsDrained json before during (finished (g, st)) =
    (g.forwarding ≡ [])
    × (g.mqtt_client ≢ some true)
    × (g.message_count ≤ accepted json before + accepted json during)
IsDrained json before during (at_work (g, st)) =
    (g.forwarding ≢ [])
    × (g.message_count + length g.forwarding ≤ accepted json before + accepted json during)
IsDrained json before during _ = ⊥

module _ {S : Type 0} (json : Json) where
  stop-stopped :
      (es : List (Event S)) (g : Gateway) (st : S)
      → g.stop_closed ≡ false
      → Ends (length g.forwarding) es
      → let (g', st', log) = run json es (record g { stop_closed = true }) st in
        stop json es g st ≡ stopped (record g' { mqtt_client = disconnected g'.mqtt_client }) st'
  unfolding stop
  stop-stopped es g st fresh ends =
      let done : (run json es (record g { stop_closed = true }) st).0.forwarding ≡ [] =
        run-Ends json (length g.forwarding) es (record g { stop_closed = true }) st refl ends in
      let last = run json es (record g { stop_closed = true }) st in
      rw fresh (ap (λ fw. when_done fw last.0 last.1) done)

module _ {S : Type 0} (json : Json) (before during : List (Event S)) where
  -- `main` ends if no payload arrives while `Stop` waits and each of the goroutines going then ends, in
  -- any order.
  main-Ends :
      (f : Flags) (st : S)
      → Ends (length (run json before (start (ok tt) (gateway_for f)).0 st).0.forwarding) during
      → (g : Gateway) × (st' : S) × (main json f (ok tt) before during st ≡ finished (g, st'))
  unfolding main after_start start gateway_for gateway_factory
  main-Ends f st ends =
      let first = run json before (start (ok tt) (gateway_for f)).0 st in
      let last = run json during (record first.0 { stop_closed = true }) first.1 in
      (
        _,
        _,
        ap exit_of (
            stop-stopped json during first.0 first.1
              (run-stop_closed json before (start (ok tt) (gateway_for f)).0 st) ends),
      )
