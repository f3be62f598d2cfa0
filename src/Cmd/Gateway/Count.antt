-- ===== src/Cmd/Gateway/Count.antt =====
-- What the gateway counts.
use distributed_systems_go.Base.{
  ℕ, zero, suc, ◌+◌, ◌<◌, ◌≡◌, refl, inl, inr, List, [], ◌∷◌, ◌++◌, some, Option-cases, arith,
  length, length-append, Text, Result, ok, err, Result-cases,
}
use distributed_systems_go.Types.{SensorData}
use distributed_systems_go.Http.Exchange.{Link}
use distributed_systems_go.Cmd.Json.{Json}
use distributed_systems_go.Cmd.Gateway.{
  Gateway, message_handler, take_out, forward_data, forward_one, Event, arrives, forwards,
  elsewhere, step, run,
}

-- the results that are no errors
abbrev pub successes : List (Result (Unit {0})) → ℕ
successes [] = 0
successes (ok _ ∷ log) = suc (successes log)
successes (err e ∷ log) = successes log

successes-append : (a b : List (Result (Unit {0}))) → successes (a ++ b) ≡ successes a + successes b
successes-append [] b = omega arith
successes-append (ok _ ∷ a) b = omega (arith, successes-append a b)
successes-append (err e ∷ a) b = omega (arith, successes-append a b)

abbrev pub accepted_one : Result SensorData → ℕ
accepted_one (ok d) = 1
accepted_one (err e) = 0

-- the payloads among the events that are readings
abbrev pub accepted : {S : Type 0} → Json → List (Event S) → ℕ
accepted json [] = 0
accepted json (arrives payload ∷ es) =
    accepted_one (json.unmarshal_reading payload) + accepted json es
accepted json (forwards i link ∷ es) = accepted json es
accepted json (elsewhere f ∷ es) = accepted json es

pub take_out-length :
    {A : Type 0} (i : ℕ) (xs : List A) (x : A) (ys : List A)
    → take_out i xs ≡ some (x, ys)
    → length xs ≡ suc (length ys)
unfolding take_out
take_out-length i [] y ys e = cc
take_out-length zero (x ∷ xs) y ys e = ground arith
take_out-length (suc i) (x ∷ xs) y ys e = elim (Option-cases (take_out i xs)) [
  | inl missing ↦ ground (arith, missing)
  | inr ((z, zs), found) ↦ ground (arith, found, take_out-length i xs z zs)
]

-- A goroutine that is there can end.
pub take_out-some :
    {A : Type 0} (i : ℕ) (xs : List A)
    → i < length xs
    → (x : A) × (ys : List A) × (take_out i xs ≡ some (x, ys))
unfolding take_out
take_out-some i [] h = absurd (omega arith)
take_out-some zero (x ∷ xs) h = (x, xs, refl)
take_out-some (suc i) (x ∷ xs) h =
    let (y, ys, e) = take_out-some i xs (omega arith) in (y, x ∷ ys, rw (e, take_out))

-- What one event does to the count and to the number of goroutines.
abbrev pub Counts :
    {S : Type 0} → Json → List (Event S) → Gateway → Gateway × S × List (Result (Unit {0})) → Type 0
Counts json es g (g', st', log) =
    (g'.message_count ≡ g.message_count + successes log)
    × (length log + length g'.forwarding ≡ length g.forwarding + accepted json es)

module _ {S : Type 0} (json : Json) where
  arrives-Counts :
      (payload : Text) (g : Gateway) (st : S)
      → Counts json (arrives payload ∷ []) g (step json (arrives payload) g st)
  unfolding step message_handler
  arrives-Counts payload g st = elim (Result-cases (json.unmarshal_reading payload)) [
    | inl (d, read) ↦
        rw (read, step, message_handler)
          (omega arith, omega (arith, length-append g.forwarding (d ∷ [])))
    | inr (why, refused) ↦ rw (refused, step, message_handler) (omega arith, omega arith)
  ]

  forward_one-Counts :
      (link : Link S) (d : SensorData) (others : List SensorData) (g : Gateway) (st : S)
      → length g.forwarding ≡ suc (length others)
      → Counts json [] g (forward_one json link (some (d, others)) g st)
  unfolding forward_one
  forward_one-Counts link d others g st e =
      elim (Result-cases (forward_data json link g.server_url d st).1) [
        | inl (u, done) ↦ rw done (omega arith, omega arith)
        | inr (why, failed) ↦ rw failed (omega arith, omega arith)
      ]

  step-Counts : (e : Event S) (g : Gateway) (st : S) → Counts json (e ∷ []) g (step json e g st)
  unfolding step forward_one
  step-Counts (arrives payload) g st = arrives-Counts payload g st
  step-Counts (forwards i link) g st = elim (Option-cases (take_out i g.forwarding)) [
    | inl missing ↦ rw (missing, forward_one) (omega arith, omega arith)
    | inr ((d, others), found) ↦
        rw found
          (forward_one-Counts link d others g st (take_out-length i g.forwarding d others found))
  ]
  step-Counts (elsewhere f) g st = (omega arith, omega arith)

  accepted-one :
      (e : Event S) (es : List (Event S))
      → accepted json (e ∷ es) ≡ accepted json (e ∷ []) + accepted json es
  accepted-one (arrives payload) es = omega arith
  accepted-one (forwards i link) es = omega arith
  accepted-one (elsewhere f) es = omega arith

  -- Over any run, whatever the order in which the goroutines end and whatever the network and the
  -- server do, the message count grows by the number of forwards without an error, and the forwards
  -- that ended and those still going are those going at the start and one for each payload that is
  -- a reading.
  pub run-Counts :
      (es : List (Event S)) (g : Gateway) (st : S) → Counts json es g (run json es g st)
  unfolding run
  run-Counts [] g st = (omega arith, omega arith)
  run-Counts (e ∷ es) g st =
      let (g', st', log) = step json e g st in
      let (counted, going) = step-Counts e g st in
      let (counted', going') = run-Counts es g' st' in
      let later : List (Result (Unit {0})) = (run json es g' st').2 in
      (
        omega (arith, counted, counted', successes-append log later),
        omega (arith, going, going', length-append log later, accepted-one e es),
      )
