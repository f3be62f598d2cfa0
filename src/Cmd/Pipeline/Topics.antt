-- ===== src/Cmd/Pipeline/Topics.antt =====
-- The topics of the simulators and the gateway's subscription.
use distributed_systems_go.Base.{
  ℕ, ◌≤◌, ◌≡◌, ◌≢◌, refl, ap, sym, ◌∙◌, arith, inl, inr, Bool, true, List, [], ◌∷◌, map, Text, text,
  decimal, ok, All,
}
use distributed_systems_go.Types.{Float}
use distributed_systems_go.Types.Floats.{Arithmetic}
use distributed_systems_go.Http.Strings.Split.{Without, Without-append}
use distributed_systems_go.Http.Strings.Number.{Without-decimal}
use distributed_systems_go.Cmd.Json.{Json}
use distributed_systems_go.Cmd.Mqtt.{IsLevel, KeepsLevels}
use distributed_systems_go.Cmd.Gateway.{arrives}
use distributed_systems_go.Cmd.Gateway.Mqtt.{subscribe_to_topics, arrivals}
use distributed_systems_go.Cmd.Sensor.{Sensor, topic_of, Tick, run_ticks}
use distributed_systems_go.Cmd.Sensor.Range.{IsOrdered, IsMessage, run_ticks-IsReading}
use distributed_systems_go.Cmd.Sensor.Manager.{sensor_id_of}

-- A number after a type's id and a dash is no slash, wildcard or reserved sign.
Without-sensor_id :
    (c : ℕ) (id : Text) (number : ℕ)
    → c ≢ b'-'
    → c ≤ 47
    → Without c id
    → Without c (sensor_id_of id number)
unfolding sensor_id_of
Without-sensor_id c id number other low plain =
    Without-append c id (b'-' ∷ decimal number) plain
      ((λ e. other (sym e)), Without-decimal c number low)

sensor_id_of-IsLevel : (id : Text) (number : ℕ) → IsLevel id → IsLevel (sensor_id_of id number)
sensor_id_of-IsLevel id number (slash, plus, hash, dollar) = (
  Without-sensor_id b'/' id number (λ e. omega arith) (omega arith) slash,
  Without-sensor_id b'+' id number (λ e. omega arith) (omega arith) plus,
  Without-sensor_id b'#' id number (λ e. omega arith) (omega arith) hash,
  Without-sensor_id b'$' id number (λ e. omega arith) (omega arith) dollar,
)

sensors-Without : (c : ℕ) → c ≤ 47 → Without c (text "sensors")
unfolding text
sensors-Without c low = (
  λ e. omega arith,
  (
    λ e. omega arith,
    (
      λ e. omega arith,
      (λ e. omega arith, (λ e. omega arith, (λ e. omega arith, (λ e. omega arith, tt)))),
    ),
  ),
)

module _ (matches : Text → Text → Bool) (keeps : KeepsLevels matches) where
  topic_of-matches :
      (id sensor_id : Text)
      → IsLevel id
      → IsLevel sensor_id
      → matches (text "sensors/+/+") (topic_of id sensor_id) ≡ true
  unfolding topic_of text
  topic_of-matches id sensor_id plain named =
      keeps.level_match (text "sensors" ∷ (b'+' ∷ []) ∷ (b'+' ∷ []) ∷ [])
        (text "sensors" ∷ id ∷ sensor_id ∷ [])
        (sensors-Without b'/' (omega arith), ((λ e. omega arith, tt), ((λ e. omega arith, tt), tt)))
        (
          (
            sensors-Without b'/' (omega arith),
            sensors-Without b'+' (omega arith),
            sensors-Without b'#' (omega arith),
            sensors-Without b'$' (omega arith),
          ),
          (plain, (named, tt)),
        )
        (inr refl, (inl refl, (inl refl, tt)))

  arrivals-all :
      {S : Type 0} (json : Json) (s : Sensor) (sensor_id : Text) (ms : List (Text × Text))
      → IsLevel s.id
      → IsLevel sensor_id
      → All (IsMessage json s sensor_id) ms
      → arrivals {S = S} matches (subscribe_to_topics (ok tt)) ms ≡ map (λ m. arrives m.1) ms
  unfolding arrivals subscribe_to_topics
  arrivals-all json s sensor_id [] plain named all = refl
  arrivals-all json s sensor_id (m ∷ ms) plain named ((same, d, reading, coded), all) =
      let matched : matches (text "sensors/+/+") m.0 ≡ true =
        ap (matches (text "sensors/+/+")) same ∙ topic_of-matches s.id sensor_id plain named in
      rw (matched, arrivals)
        (ap (λ es. arrives m.1 ∷ es) (arrivals-all json s sensor_id ms plain named all))

  -- The gateway, once it has subscribed, handles every message that a simulator of a type publishes, in
  -- order, if the type's bounds are in order, its id holds no slash, no wildcard and no dollar
  -- sign, and the broker treats the wildcard `+` as MQTT prescribes.
  pub arrivals-run_ticks :
      {S : Type 0} (json : Json) (float : Arithmetic) (s : Sensor) (number : ℕ) (ticks : List Tick)
      (base : Float)
      → IsOrdered s
      → IsLevel s.id
      → let (base', readings, messages) =
          run_ticks float json s (sensor_id_of s.id number) ticks base [] in
        arrivals {S = S} matches (subscribe_to_topics (ok tt)) messages
        ≡ map (λ m. arrives m.1) messages
  arrivals-run_ticks json float s number ticks base ordered plain =
      let (count, all, sent) =
        run_ticks-IsReading json s (sensor_id_of s.id number) float ticks base [] ordered tt in
      arrivals-all json s (sensor_id_of s.id number) _ plain
        (sensor_id_of-IsLevel s.id number plain) sent
