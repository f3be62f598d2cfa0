-- ===== src/Cmd/MqttTests.antt =====
-- A broker that compares filters and topics level by level, and the clients of a small fleet.
use distributed_systems_go.Base.{
  ℕ, ◌≡◌, refl, ap, ◌∙◌, arith, inl, inr, Bool, true, false, if◌then◌else◌, List, [], ◌∷◌, map,
  Text, text, eq_text, eq_text_refl, ok, All,
}
use distributed_systems_go.Base.Int.{pos}
use distributed_systems_go.Types.Floats.{lt, is_nan}
use distributed_systems_go.Http.Strings.{split}
use distributed_systems_go.Http.Strings.Split.{Without, split-part, split-last}
use distributed_systems_go.Cmd.Fixtures.{codec, still}
use distributed_systems_go.Cmd.Mqtt.{ClientOptions, join_levels, IsLevel, IsMatch, KeepsLevels}
use distributed_systems_go.Cmd.Gateway.{gateway_factory, arrives}
use distributed_systems_go.Cmd.Gateway.Mqtt.{gateway_options, subscribe_to_topics, arrivals}
use distributed_systems_go.Cmd.Sensor.{Tick, light, run_ticks}
use distributed_systems_go.Cmd.Sensor.Manager.{new_sensor_manager, sensor_id_of, start_manager}
use distributed_systems_go.Cmd.Sensor.Mqtt.{simulator_options, start_manager-AreDifferent}
use distributed_systems_go.Cmd.Sensor.Manager.Ids.{AreDifferent}
use distributed_systems_go.Cmd.Pipeline.Topics.{arrivals-run_ticks}

match_level : Text → Text → Bool
match_level f t = if eq_text f (b'+' ∷ []) then true else eq_text f t

match_levels : List Text → List Text → Bool
match_levels [] [] = true
match_levels [] (t ∷ ts) = false
match_levels (f ∷ fs) [] = false
match_levels (f ∷ fs) (t ∷ ts) = if match_level f t then match_levels fs ts else false

broker : Text → Text → Bool
broker topics topic = match_levels (split b'/' topics) (split b'/' topic)

split-join_levels :
    (l : Text) (ls : List Text)
    → All (Without b'/') (l ∷ ls)
    → split b'/' (join_levels (l ∷ ls)) ≡ l ∷ ls
split-join_levels l [] (h, _) = split-last b'/' l h
split-join_levels l (m ∷ ls) (h, hs) =
    split-part b'/' l (join_levels (m ∷ ls)) h ∙ ap (λ ts. l ∷ ts) (split-join_levels m ls hs)

match_levels-IsMatch : (fs ts : List Text) → IsMatch fs ts → match_levels fs ts ≡ true
unfolding match_levels match_level
match_levels-IsMatch [] [] h = refl
match_levels-IsMatch [] (t ∷ ts) h = absurd h
match_levels-IsMatch (f ∷ fs) [] h = absurd h
match_levels-IsMatch (f ∷ fs) (t ∷ ts) (inl plus, h) =
    let e : eq_text f (b'+' ∷ []) ≡ true = rw plus (eq_text_refl (b'+' ∷ [])) in
    rw e (match_levels-IsMatch fs ts h)
match_levels-IsMatch (f ∷ fs) (t ∷ ts) (inr same, h) =
    let e : eq_text f t ≡ true = rw same (eq_text_refl t) in
    ground (arith, e, match_levels-IsMatch fs ts h)

slashless : (ts : List Text) → All IsLevel ts → All (Without b'/') ts
slashless [] h = tt
slashless (t ∷ ts) h = (h.0.0, slashless ts h.1)

broker-match :
    (fs ts : List Text)
    → All (Without b'/') fs
    → All IsLevel ts
    → IsMatch fs ts
    → broker (join_levels fs) (join_levels ts) ≡ true
unfolding broker split match_levels match_level eq_text
broker-match [] [] hf ht h = refl
broker-match [] (t ∷ ts) hf ht h = absurd h
broker-match (f ∷ fs) [] hf ht h = absurd h
broker-match (f ∷ fs) (t ∷ ts) hf ht h =
    rw (split-join_levels f fs hf, split-join_levels t ts (slashless (t ∷ ts) ht))
      (match_levels-IsMatch (f ∷ fs) (t ∷ ts) h)

broker-KeepsLevels : KeepsLevels broker
broker-KeepsLevels = record { level_match = broker-match }

abbrev ticks : List Tick
ticks =
    record { noise_draw = 0; drift_draw = 0; now = 5; published = ok tt }
    ∷ record { noise_draw = 0; drift_draw = 0; now = 6; published = ok tt }
    ∷ []

light-IsLevel : IsLevel light.id
unfolding text
light-IsLevel = (ground arith, ground arith, ground arith, ground arith)

arrivals-run_ticks_example :
    let (base', readings, messages) =
      run_ticks still codec light (sensor_id_of light.id 12) ticks 42 [] in
    arrivals {S = ℕ} broker (subscribe_to_topics (ok tt)) messages ≡ map (λ m. arrives m.1) messages
unfolding lt is_nan
arrivals-run_ticks_example =
    arrivals-run_ticks broker broker-KeepsLevels codec still light 12 ticks 42 refl light-IsLevel

start_manager-AreDifferent_example :
    let started =
      start_manager (λ i. ok tt) (new_sensor_manager (text "mqtt:1883") (pos 3) (pos 0)) in
    AreDifferent (
      map
        (λ (o : ClientOptions). o.client_id)
        (gateway_options (gateway_factory (text "http://a:1") (text "mqtt:1883"))
          ∷ map (simulator_options (text "mqtt:1883")) started.0.simulators))
start_manager-AreDifferent_example =
    start_manager-AreDifferent (λ i. ok tt) (gateway_factory (text "http://a:1") (text "mqtt:1883"))
      (text "mqtt:1883") 3 (pos 0) (λ i. refl) (omega arith)
