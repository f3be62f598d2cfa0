-- ===== src/Cmd/Sensor/Fleet.antt =====
-- cmd/sensor/main.go, the goroutines of all simulators at one broker: their ticks come in any order.
-- A simulator's base value is its goroutine's own; the broker's messages are shared.
use distributed_systems_go.Base.{
  ℕ, ◌≡◌, refl, sym, ap, ap₂, ◌∙◌, arith, inl, inr, Bool-cases, true, false, List, [], ◌∷◌, ◌++◌,
  append-nil, keep, keep-append, ◌==◌, ==_iff, if◌then◌else◌, Text, eq_text, eq_text_iff,
  eq_text_refl, Result, Result-cases, ok, err, All,
}
use distributed_systems_go.Types.{Float, SensorData}
use distributed_systems_go.Types.Floats.{Arithmetic}
use distributed_systems_go.Cmd.Json.{Json}
use distributed_systems_go.Cmd.Sensor.{
  apply_drift, topic_of, publish_data, Tick, reading_of, run_ticks,
}
use distributed_systems_go.Cmd.Sensor.Manager.{SensorSimulator}

abbrev pub topic_in : SensorSimulator → Text
topic_in s = topic_of s.sensor_type.id s.sensor_id

-- the messages of a topic
abbrev pub on_topic : Text → List (Text × Text) → List (Text × Text)
on_topic topic ms = keep (λ m. eq_text m.0 topic) ms

-- the ticks of one simulator
abbrev pub ticks_at : ℕ → List (ℕ × Tick) → List Tick
ticks_at i [] = []
ticks_at i ((j, t) ∷ es) = let rest = ticks_at i es in if j == i then t ∷ rest else rest

-- what publishing adds to the broker's messages
abbrev carried : Text → Result (Unit {0}) → Result Text → List (Text × Text)
carried topic (ok _) (ok payload) = (topic, payload) ∷ []
carried topic (err e) (ok payload) = []
carried topic published (err e) = []

on_topic-carried :
    (topic : Text) (published : Result (Unit {0})) (r : Result Text)
    → on_topic topic (carried topic published r) ≡ carried topic published r
on_topic-carried topic (ok u) (ok payload) = rw (eq_text_refl topic) refl
on_topic-carried topic (err e) (ok payload) = refl
on_topic-carried topic published (err e) = refl

on_topic-carried_other :
    (topic other : Text) (published : Result (Unit {0})) (r : Result Text)
    → eq_text other topic ≡ false
    → on_topic topic (carried other published r) ≡ []
on_topic-carried_other topic other (ok u) (ok payload) h = rw h refl
on_topic-carried_other topic other (err e) (ok payload) h = refl
on_topic-carried_other topic other published (err e) h = refl

module _ (json : Json) (type_id : Text) (d : SensorData) where
  publish_data-carried :
      (published : Result (Unit {0})) (ms : List (Text × Text))
      → (publish_data json type_id published d ms).0
        ≡ ms ++ carried (topic_of type_id d.sensor_id) published (json.marshal_reading d)
  unfolding publish_data
  publish_data-carried (ok u) ms = elim (Result-cases (json.marshal_reading d)) [
    | inl (payload, coded) ↦ rw (coded, publish_data) refl
    | inr (why, failed) ↦ rw (failed, publish_data) (sym (append-nil ms))
  ]
  publish_data-carried (err e) ms = elim (Result-cases (json.marshal_reading d)) [
    | inl (payload, coded) ↦ rw (coded, publish_data) (sym (append-nil ms))
    | inr (why, failed) ↦ rw (failed, publish_data) (sym (append-nil ms))
  ]

  -- what publishing does to the messages of its own topic
  publish_data-own :
      (published : Result (Unit {0})) (ms own : List (Text × Text))
      → on_topic (topic_of type_id d.sensor_id) ms ≡ own
      → on_topic (topic_of type_id d.sensor_id) (publish_data json type_id published d ms).0
        ≡ (publish_data json type_id published d own).0
  publish_data-own published ms own h =
      let topic = topic_of type_id d.sensor_id in
      let new = carried topic published (json.marshal_reading d) in
      ap (on_topic topic) (publish_data-carried published ms)
      ∙ keep-append (λ m. eq_text m.0 topic) ms new
      ∙ ap₂ (λ xs ys. xs ++ ys) h (on_topic-carried topic published (json.marshal_reading d))
      ∙ sym (publish_data-carried published own)

  -- and to those of another one
  publish_data-other :
      (topic : Text) (published : Result (Unit {0})) (ms : List (Text × Text))
      → eq_text (topic_of type_id d.sensor_id) topic ≡ false
      → on_topic topic (publish_data json type_id published d ms).0 ≡ on_topic topic ms
  publish_data-other topic published ms other =
      let new = carried (topic_of type_id d.sensor_id) published (json.marshal_reading d) in
      ap (on_topic topic) (publish_data-carried published ms)
      ∙ keep-append (λ m. eq_text m.0 topic) ms new
      ∙ ap (λ ys. on_topic topic ms ++ ys)
          (on_topic-carried_other topic (topic_of type_id d.sensor_id) published
            (json.marshal_reading d) other)
      ∙ append-nil (on_topic topic ms)

module _ (float : Arithmetic) (json : Json) (who : ℕ → SensorSimulator) where
  -- the simulators' loops, over their ticks in the order in which they come
  unfoldable pub run_fleet :
      List (ℕ × Tick) → (ℕ → Float) → List (Text × Text) → (ℕ → Float) × List (Text × Text)
  run_fleet [] bases ms = (bases, ms)
  run_fleet ((i, t) ∷ es) bases ms =
      let s = who i in
      let d = reading_of float s.sensor_type s.sensor_id (bases i) t in
      let drifted = apply_drift float s.sensor_type t.drift_draw (bases i) in
      run_fleet es (λ j. if j == i then drifted else bases j)
        (publish_data json s.sensor_type.id t.published d ms).0

  -- A simulator whose topic is that of the `i`-th is the `i`-th.
  abbrev pub IsApart : ℕ → ℕ × Tick → Type 0
  IsApart i (j, t) = topic_in (who j) ≡ topic_in (who i) → j ≡ i

  other_topic :
      (i j : ℕ) (t : Tick)
      → IsApart i (j, t)
      → (j == i) ≡ false
      → eq_text (topic_in (who j)) (topic_in (who i)) ≡ false
  other_topic i j t apart other =
      elim (Bool-cases (eq_text (topic_in (who j)) (topic_in (who i)))) [
        | inl same ↦
            let e : (j == i) ≡ true =
              (==_iff j i).1 (apart ((eq_text_iff (topic_in (who j)) (topic_in (who i))).0 same)) in
            absurd (cc)
        | inr differ ↦ differ
      ]

  run_fleet-from :
      (i : ℕ) (es : List (ℕ × Tick)) (bases : ℕ → Float) (base : Float)
      (ms own : List (Text × Text))
      → All (IsApart i) es
      → bases i ≡ base
      → on_topic (topic_in (who i)) ms ≡ own
      → let (bases', ms') = run_fleet es bases ms in
        let (base', readings, own') =
          run_ticks float json (who i).sensor_type (who i).sensor_id (ticks_at i es) base own in
        (bases' i ≡ base') × (on_topic (topic_in (who i)) ms' ≡ own')
  unfolding run_fleet run_ticks reading_of
  run_fleet-from i [] bases base ms own apart hb same = (hb, same)
  run_fleet-from i ((j, t) ∷ es) bases base ms own apart hb same = elim (Bool-cases (j == i)) [
    | inl this ↦
        let e : j ≡ i = (==_iff j i).0 this in
        let back : (i == j) ≡ true = (==_iff i j).1 (sym e) in
        let drifted : apply_drift float (who j).sensor_type t.drift_draw (bases j)
            ≡ apply_drift float (who i).sensor_type t.drift_draw base =
          ap (λ k. apply_drift float (who k).sensor_type t.drift_draw (bases k)) e
          ∙ ap (apply_drift float (who i).sensor_type t.drift_draw) hb in
        let d : SensorData = reading_of float (who i).sensor_type (who i).sensor_id base t in
        rw this (
          run_fleet-from i es _ _ _ _ apart.1 (rw back drifted) (
            ap
              (λ k.
                on_topic (topic_in (who i))
                  (publish_data json (who k).sensor_type.id t.published
                    (reading_of float (who k).sensor_type (who k).sensor_id (bases k) t) ms).0)
              e
            ∙ ap
                (λ b.
                  on_topic (topic_in (who i))
                    (publish_data json (who i).sensor_type.id t.published
                      (reading_of float (who i).sensor_type (who i).sensor_id b t) ms).0)
                hb
            ∙ publish_data-own json (who i).sensor_type.id d t.published ms own same))
    | inr other ↦
        let back : (i == j) ≡ false = ground (arith, other) in
        rw other (
          run_fleet-from i es _ base _ own apart.1 (rw back hb) (
            publish_data-other json (who j).sensor_type.id
              (reading_of float (who j).sensor_type (who j).sensor_id (bases j) t)
              (topic_in (who i)) t.published ms (other_topic i j t apart.0 other)
            ∙ same))
  ]

  -- Whatever the order of the ticks of all simulators is, a simulator's base value at the end and the
  -- messages under its topic are those of its own loop over its own ticks, if no other
  -- simulator that ticks has its topic: no simulator disturbs another one.
  pub run_fleet-run_ticks :
      (i : ℕ) (es : List (ℕ × Tick)) (bases : ℕ → Float) (ms own : List (Text × Text))
      → All (IsApart i) es
      → on_topic (topic_in (who i)) ms ≡ own
      → let (bases', ms') = run_fleet es bases ms in
        let (base', readings, own') =
          run_ticks float json
            (who i).sensor_type
            (who i).sensor_id
            (ticks_at i es)
            (bases i)
            own in
        (bases' i ≡ base') × (on_topic (topic_in (who i)) ms' ≡ own')
  run_fleet-run_ticks i es bases ms own apart same =
      run_fleet-from i es bases (bases i) ms own apart refl same
