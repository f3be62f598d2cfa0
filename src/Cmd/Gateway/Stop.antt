-- ===== src/Cmd/Gateway/Stop.antt =====
-- `Stop` of the gateway waits for the goroutines, and ends.
use distributed_systems_go.Base.{
  ℕ, zero, suc, ◌<◌, ◌≡◌, ◌≢◌, refl, ap, ◌∙◌, Bool, true, false, inl, inr, List, [], ◌∷◌, Option,
  none, some, arith, length, Result, Result-cases,
}
use distributed_systems_go.Types.{SensorData}
use distributed_systems_go.Http.Exchange.{Link}
use distributed_systems_go.Cmd.Json.{Json}
use distributed_systems_go.Cmd.Gateway.{
  Gateway, forward_data, forward_one, Event, arrives, forwards, elsewhere, step, run, Stopped,
  panicked, waiting, stopped, disconnected, stop,
}
use distributed_systems_go.Cmd.Gateway.Count.{take_out-length, take_out-some}

length-zero : {A : Type 0} (xs : List A) → length xs ≡ 0 → xs ≡ []
length-zero [] e = refl
length-zero (x ∷ xs) e = absurd (omega arith)

pub disconnected-ne : (c : Option Bool) → disconnected c ≢ some true
disconnected-ne none e = cc
disconnected-ne (some c) e = cc

-- The goroutines end, each in its turn, and no payload arrives.
abbrev pub Ends : {S : Type 0} → ℕ → List (Event S) → Type 0
Ends zero [] = Unit
Ends (suc n) [] = ⊥
Ends n (arrives payload ∷ es) = ⊥
Ends zero (forwards i link ∷ es) = ⊥
Ends (suc n) (forwards i link ∷ es) = (i < suc n) × Ends n es
Ends n (elsewhere f ∷ es) = Ends n es

-- The gateway has stopped: nothing is being forwarded, and the client is not connected.
abbrev pub IsStopped : {S : Type 0} → Stopped S → Type 0
IsStopped panicked = ⊥
IsStopped (waiting g st) = ⊥
IsStopped (stopped g st) = (g.forwarding ≡ []) × (g.mqtt_client ≢ some true)

module _ {S : Type 0} (json : Json) where
  forward_one-others :
      (link : Link S) (d : SensorData) (others : List SensorData) (g : Gateway) (st : S)
      → (forward_one json link (some (d, others)) g st).0.forwarding ≡ others
  unfolding forward_one
  forward_one-others link d others g st =
      elim (Result-cases (forward_data json link g.server_url d st).1) [
        | inl (u, done) ↦ rw done refl
        | inr (why, failed) ↦ rw failed refl
      ]

  pub run-Ends :
      (n : ℕ) (es : List (Event S)) (g : Gateway) (st : S)
      → length g.forwarding ≡ n
      → Ends n es
      → (run json es g st).0.forwarding ≡ []
  unfolding run step
  run-Ends zero [] g st len ends = length-zero g.forwarding len
  run-Ends (suc n) [] g st len ends = absurd ends
  run-Ends n (arrives payload ∷ es) g st len ends = absurd ends
  run-Ends zero (forwards i link ∷ es) g st len ends = absurd ends
  run-Ends (suc n) (forwards i link ∷ es) g st len ends =
      let (d, others, found) = take_out-some i g.forwarding (omega (arith, ends.0)) in
      let next : Gateway × S × List (Result (Unit {0})) =
        forward_one json link (some (d, others)) g st in
      let left : next.0.forwarding ≡ others = forward_one-others link d others g st in
      let shorter : length g.forwarding ≡ suc (length others) =
        take_out-length i g.forwarding d others found in
      ap
        (λ o.
          (run json es (forward_one json link o g st).0
            (forward_one json link o g st).1).0.forwarding)
        found
      ∙ run-Ends n es next.0 next.1 (ap length left ∙ omega arith) ends.1
  run-Ends n (elsewhere f ∷ es) g st len ends = run-Ends n es g (f st) len ends

  -- `Stop`, called for the first time, ends with nothing being forwarded and the client not
  -- connected, if no payload arrives meanwhile and each of the goroutines ends, in any order and
  -- whatever the network and the server do.
  pub stop-IsStopped :
      (es : List (Event S)) (g : Gateway) (st : S)
      → g.stop_closed ≡ false
      → Ends (length g.forwarding) es
      → IsStopped (stop json es g st)
  unfolding stop
  stop-IsStopped es g st fresh ends =
      let done : (run json es (record g { stop_closed = true }) st).0.forwarding ≡ [] =
        run-Ends (length g.forwarding) es (record g { stop_closed = true }) st refl ends in
      rw (fresh, done) (done, disconnected-ne _)
