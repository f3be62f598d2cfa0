-- ===== src/Cmd/Pipeline/Unordered.antt =====
-- The gateway's goroutines end in any order: what the databases hold in the end, up to order.
use distributed_systems_go.Base.{
  ℕ, zero, suc, ◌+◌, ◌≡◌, refl, sym, ap, ◌∙◌, inl, inr, List, [], ◌∷◌, ◌++◌, map, append-nil,
  append_assoc, Option, none, some, Option-cases, Text, Result, Result-cases, ok, err, All,
  All-append, All-append_inv,
}
use distributed_systems_go.Base.Int.{ℤ}
use distributed_systems_go.Base.Table.Order.{
  IsReordering, first_same, swapped, then_also, All-IsReordering,
}
use distributed_systems_go.Base.Bag.{IsReordering-append, of_path}
use distributed_systems_go.Types.{SensorData}
use distributed_systems_go.Rpc.{TimestampPb, KeepsTime}
use distributed_systems_go.Database.Service.{Service, add_data_point_internal}
use distributed_systems_go.Http.Exchange.{Link}
use distributed_systems_go.Http.Exchange.Loop.{Host, IsSound}
use distributed_systems_go.Cmd.Json.{Json}
use distributed_systems_go.Cmd.Server.{World}
use distributed_systems_go.Cmd.Store32.{serve_all}
use distributed_systems_go.Cmd.Gateway.{
  Gateway, Event, arrives, forwards, message_handler, take_out, forward_one, step, run,
}
use distributed_systems_go.Cmd.Gateway.Answer.{server_url}
use distributed_systems_go.Cmd.Gateway.Forward.{to_server}
use distributed_systems_go.Cmd.Pipeline.{
  forward_one-counted, serve_all-map, serve_all-none, AreNew, AreNew-map, IsCalm, IsAble,
  forward_data-calm,
}

-- what the gateway meets: a payload, or the end of the `i`-th goroutine, whose request meets a world
pub data Happening (T : Type 0) : Type 0 where
  receives : Text → Happening T
  sends : ℕ → World T → Happening T

abbrev pub worlds_of : {T : Type 0} → List (Happening T) → List (World T)
worlds_of [] = []
worlds_of (receives payload ∷ hs) = worlds_of hs
worlds_of (sends i w ∷ hs) = w ∷ worlds_of hs

abbrev pub if_read : Result SensorData → List SensorData
if_read (ok d) = d ∷ []
if_read (err e) = []

-- the readings that arrive
abbrev pub arrived : {T : Type 0} → Json → List (Happening T) → List SensorData
arrived json [] = []
arrived json (receives payload ∷ hs) = if_read (json.unmarshal_reading payload) ++ arrived json hs
arrived json (sends i w ∷ hs) = arrived json hs

abbrev pub events_of :
    (pb : TimestampPb)
    → Json
    → Text
    → Text
    → ℤ
    → Host
    → List (Happening pb.Timestamp)
    → List (Event (List Service))
events_of pb json page address listen h [] = []
events_of pb json page address listen h (receives payload ∷ hs) =
    arrives payload ∷ events_of pb json page address listen h hs
events_of pb json page address listen h (sends i w ∷ hs) =
    forwards i (to_server pb json page address listen w h)
    ∷ events_of pb json page address listen h hs

-- A goroutine that ends is one of those there.
take_out-IsReordering :
    {A : Type 0} (i : ℕ) (xs : List A) (x : A) (ys : List A)
    → take_out i xs ≡ some (x, ys)
    → IsReordering (x ∷ ys) xs
unfolding take_out
take_out-IsReordering i [] x ys e = absurd (cc)
take_out-IsReordering zero (z ∷ xs) x ys e = let same : x ∷ ys ≡ z ∷ xs = cc in of_path same
take_out-IsReordering {A} (suc i) (z ∷ xs) x ys e = elim (Option-cases (take_out i xs)) [
  | inl missing ↦
      let clash : ◌≡◌ {A = Option (A × List A)} none (some (x, ys)) = rw (missing, take_out) at e in
      absurd (cc)
  | inr ((w, ws), found) ↦
      let same : ◌≡◌ {A = Option (A × List A)} (some (w, z ∷ ws)) (some (x, ys)) =
        rw (found, take_out) at e in
      let front : x ∷ ys ≡ w ∷ z ∷ ws = cc in
      then_also (of_path front)
        (then_also (swapped w z ws) (first_same z (take_out-IsReordering i xs w ws found)))
]

message_handler-if_read :
    (json : Json) (payload : Text) (g : Gateway)
    → message_handler json payload g
      ≡ record g { forwarding = g.forwarding ++ if_read (json.unmarshal_reading payload) }
unfolding message_handler
message_handler-if_read json payload g = elim (Result-cases (json.unmarshal_reading payload)) [
  | inl (d, found) ↦ rw (found, message_handler) refl
  | inr (why, refused) ↦
      rw (refused, message_handler)
        (ap (λ ds. record g { forwarding = ds }) (sym (append-nil g.forwarding)))
]

forward_one-none :
    {S : Type 0} (json : Json) (link : Link S) (g : Gateway) (st : S)
    → forward_one json link none g st ≡ (g, st, [])
unfolding forward_one
forward_one-none json link g st = refl

-- The readings of a run: every database has stored those that were forwarded, in one order, and the
-- others are still being forwarded.
abbrev pub AreKept :
    {T : Type 0}
    → Json
    → List (Happening T)
    → Gateway
    → List Service
    → Gateway × List Service × List (Result (Unit {0}))
    → Type 0
AreKept json hs g nodes (g', nodes', log) =
    (ds : List SensorData) × (nodes' ≡ map (serve_all ds) nodes)
    × IsReordering (ds ++ g'.forwarding) (g.forwarding ++ arrived json hs)

-- A reading that can be forwarded.
abbrev pub CanGo : Json → Host → Text → ℕ → SensorData → Type 0
CanGo json h host port d = (payload : Text) × IsAble json h host port payload d

module _ (pb : TimestampPb) (keeps : KeepsTime pb) (json : Json) (page address : Text) (listen : ℤ)
    (h : Host) (host : Text) (port : ℕ) (sound : IsSound h) where
  open pb use {Timestamp}

  pub run-AreKept :
      (hs : List (Happening Timestamp)) (g : Gateway) (nodes : List Service)
      → All (CanGo json h host port) g.forwarding
      → All (CanGo json h host port) (arrived json hs)
      → All IsCalm (worlds_of hs)
      → AreNew (worlds_of hs) nodes
      → g.server_url ≡ server_url host port
      → AreKept json hs g nodes (run json (events_of pb json page address listen h hs) g nodes)
  unfolding run step
  run-AreKept [] g nodes going coming calm fresh url =
      ([], sym (serve_all-none nodes), of_path (sym (append-nil g.forwarding)))
  run-AreKept (receives payload ∷ hs) g nodes going coming calm fresh url =
      let new = if_read (json.unmarshal_reading payload) in
      let (now, later) = All-append_inv (CanGo json h host port) new (arrived json hs) coming in
      let (ds, stored, kept) =
        run-AreKept hs (record g { forwarding = g.forwarding ++ new }) nodes
          (All-append (CanGo json h host port) g.forwarding new going now) later calm fresh url in
      rw (message_handler-if_read json payload g, run, step)
        (ds, stored, then_also kept (of_path (append_assoc g.forwarding new (arrived json hs))))
  run-AreKept (sends i w ∷ hs) g nodes going coming calm fresh url =
      elim (Option-cases (take_out i g.forwarding)) [
        | inl missing ↦
            let (ds, stored, kept) = run-AreKept hs g nodes going coming calm.1 fresh.1 url in
            let idle : forward_one json (to_server pb json page address listen w h)
                  (take_out i g.forwarding) g nodes
                ≡ (g, nodes, []) =
              ap (λ o. forward_one json (to_server pb json page address listen w h) o g nodes)
                missing
              ∙ forward_one-none json (to_server pb json page address listen w h) g nodes in
            rw (idle, run, step) (ds, stored, kept)
        | inr ((d, others), found) ↦
            let taken : IsReordering (d ∷ others) g.forwarding =
              take_out-IsReordering i g.forwarding d others found in
            let (able, still) = All-IsReordering (CanGo json h host port) taken going in
            let nodes' : List Service = map (add_data_point_internal d) nodes in
            let g' : Gateway = record g {
              forwarding = others;
              message_count = g.message_count + 1;
            } in
            let sent : forward_one json (to_server pb json page address listen w h)
                  (take_out i g.forwarding) g nodes
                ≡ (g', nodes', ok tt ∷ []) =
              ap (λ o. forward_one json (to_server pb json page address listen w h) o g nodes) found
              ∙ forward_one-counted json (to_server pb json page address listen w h) able.0 d others
                  g nodes nodes'
                  (forward_data-calm pb keeps json page address listen h host port w able.0 d
                    g.server_url nodes sound able.1 calm.0 fresh.0 url) in
            let (ds, stored, kept) =
              run-AreKept hs g' nodes' still coming calm.1
                (AreNew-map d (worlds_of hs) nodes fresh.1) url in
            rw (sent, run, step)
              (
                d ∷ ds,
                stored ∙ serve_all-map d ds nodes,
                then_also (first_same d kept) (IsReordering-append (arrived json hs) taken),
              )
      ]
