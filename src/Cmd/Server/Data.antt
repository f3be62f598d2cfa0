-- ===== src/Cmd/Server/Data.antt =====
-- What the HTTP status of `POST /data` and `GET /data` tells about the databases.
use distributed_systems_go.Base.{
  ◌≡◌, ◌≢◌, refl, ◌∙◌, ap, false, true, inl, inr, Bool-cases, [], ◌∷◌, ◌++◌, map, arith, List,
  is_empty, Result, ok, err,
}
use distributed_systems_go.Types.{Time, SensorData}
use distributed_systems_go.Rpc.{TimestampPb, KeepsTime}
use distributed_systems_go.Database.Service.{Service, trim, add_data_point_internal}
use distributed_systems_go.Database.Client.{delivered, get_all_data_points}
use distributed_systems_go.Database.Client.RoundTrip.{get_all_data_points-points}
use distributed_systems_go.Database.Coordinator.{generate_transaction_id, get_all_from_first}
use distributed_systems_go.Database.Coordinator.Commit.{
  Undisturbed, Answered, IsNew, ok-stored, reliable_ok,
}
use distributed_systems_go.Database.Coordinator.Ids.{generate_transaction_id-named}
use distributed_systems_go.Http.Message.{Request, status_ok, status_bad_request, plain_response}
use distributed_systems_go.Cmd.Json.{Json}
use distributed_systems_go.Cmd.Server.{
  World, transact, stamp, stored_response, post_reading, post_data, get_data, all_response,
  json_response,
}

-- The status of a result's response shows the result.
stored_response-ok :
    (r : Result (Unit {0})) → (stored_response r).status_code ≡ status_ok → r ≡ ok tt
unfolding stored_response plain_response
stored_response-ok (ok u) h = refl
stored_response-ok (err e) h = ground arith

not_bad : ¬ (status_bad_request ≡ status_ok)
not_bad h = ground arith

-- A result's response is no bad request.
stored_response-ne_bad :
    (r : Result (Unit {0})) → (stored_response r).status_code ≢ status_bad_request
unfolding stored_response plain_response
stored_response-ne_bad (ok u) h = ground arith
stored_response-ne_bad (err e) h = ground arith

same_sensor :
    (d d' : SensorData) → is_empty d.sensor_id ≡ true → d ≡ d' → is_empty d'.sensor_id ≡ true
same_sensor d d' h e = rw (← e) h

stamp-sensor : (now : Time) (d : SensorData) → (stamp now d).sensor_id ≡ d.sensor_id
unfolding stamp
stamp-sensor now d = ground arith

module _ (pb : TimestampPb) (json : Json) where
  open pb use {Timestamp}
  open json use {unmarshal_reading}

  post_reading-bad :
      (w : World Timestamp) (r : Result SensorData) (nodes : List Service)
      → (post_reading pb json w r nodes).1.status_code ≡ status_bad_request
      → ((post_reading pb json w r nodes).0 ≡ nodes)
        × ((d : SensorData) → r ≡ ok d → is_empty d.sensor_id ≡ true)
  unfolding post_reading
  post_reading-bad w (err e) nodes h = (refl, λ d k. cc)
  post_reading-bad w (ok d) nodes h = elim (Bool-cases (is_empty d.sensor_id)) [
    | inl missing ↦ (rw missing, λ d' k. same_sensor d d' missing cc)
    | inr named ↦ absurd (stored_response-ne_bad _ (rw named at h))
  ]

  -- If `POST /data` answers with status 400, the body was no reading with a sensor id, and no
  -- database has changed.
  pub post-rejected :
      (w : World Timestamp) (req : Request) (nodes : List Service)
      → (post_data pb json w req nodes).1.status_code ≡ status_bad_request
      → ((post_data pb json w req nodes).0 ≡ nodes)
        × ((d : SensorData) → unmarshal_reading req.body ≡ ok d → is_empty d.sensor_id ≡ true)
  unfolding post_data
  post-rejected w req nodes h = post_reading-bad w (unmarshal_reading req.body) nodes h

module _ (pb : TimestampPb) (keeps : KeepsTime pb) (json : Json) where
  open pb use {Timestamp}
  open json use {unmarshal_reading, marshal_readings}

  post_reading-ok :
      (w : World Timestamp) (r : Result SensorData) (nodes : List Service)
      → Undisturbed w.trial.plan.prepares
      → Undisturbed w.trial.plan.commits
      → (post_reading pb json w r nodes).1.status_code ≡ status_ok
      → (d : SensorData) × (r ≡ ok d)
        × (is_empty d.sensor_id ≡ false)
        × ((post_reading pb json w r nodes).0 ≡ map (add_data_point_internal (stamp w.now d)) nodes)
  unfolding post_reading plain_response transact
  post_reading-ok w (err e) nodes alone_p alone_c h = ground arith
  post_reading-ok w (ok d) nodes alone_p alone_c h = elim (Bool-cases (is_empty d.sensor_id)) [
    | inl missing ↦ absurd (not_bad (rw missing at h))
    | inr named ↦
        let x : List Service × Result (Unit {0}) = transact pb w.trial (stamp w.now d) nodes in
        let stored : x.1 ≡ ok tt = stored_response-ok x.1 (rw named at h) in
        (
          d,
          refl,
          named,
          rw named (
              ok-stored pb keeps w.trial.plan _ (stamp w.now d) nodes x.0 alone_p alone_c
                (ap (λ r. (x.0, r)) stored)),
        )
  ]

  -- If `POST /data` answers with status 200 and nobody interferes, then the body was a reading
  -- with a sensor id, and every database has stored it exactly once, with the current time if it
  -- had none, whatever calls got lost.
  pub post-stored :
      (w : World Timestamp) (req : Request) (nodes : List Service)
      → Undisturbed w.trial.plan.prepares
      → Undisturbed w.trial.plan.commits
      → (post_data pb json w req nodes).1.status_code ≡ status_ok
      → (d : SensorData) × (unmarshal_reading req.body ≡ ok d)
        × (is_empty d.sensor_id ≡ false)
        × ((post_data pb json w req nodes).0 ≡ map (add_data_point_internal (stamp w.now d)) nodes)
  unfolding post_data
  post-stored w req nodes alone_p alone_c h =
      post_reading-ok w (unmarshal_reading req.body) nodes alone_p alone_c h

  pub post_data-ok :
      (w : World Timestamp) (req : Request) (d : SensorData) (nodes : List Service)
      → Undisturbed w.trial.plan.prepares
      → Undisturbed w.trial.plan.commits
      → Answered w.trial.plan.prepares
      → Answered w.trial.plan.commits
      → unmarshal_reading req.body ≡ ok d
      → is_empty d.sensor_id ≡ false
      → IsNew (generate_transaction_id w.trial.random w.trial.unix_nano) nodes
      → post_data pb json w req nodes
        ≡ (map (add_data_point_internal (stamp w.now d)) nodes, stored_response (ok tt))
  unfolding post_data post_reading transact
  post_data-ok w req d nodes alone_p alone_c ans_p ans_c body named fresh = rw (
    body,
    named,
    reliable_ok pb keeps w.trial.plan _ (stamp w.now d) nodes alone_p alone_c ans_p ans_c
        (generate_transaction_id-named w.trial.random w.trial.unix_nano)
        (ap is_empty (stamp-sensor w.now d) ∙ named) fresh,
  )

  get_data-points :
      (w : World Timestamp) (req : Request) (s : Service) (nodes : List Service)
      → w.read_fate ≡ delivered
      → (get_data pb json w req (s ∷ nodes)).1 ≡ json_response json (marshal_readings s.points)
  unfolding get_data get_all_from_first all_response
  get_data-points w req s nodes fate =
      ap (λ f. all_response json (get_all_data_points pb f s).1) fate
      ∙ ap (λ r. all_response json r.1) (get_all_data_points-points pb keeps s)

  -- If every call is answered, nobody interferes and no database holds the new transaction id, a
  -- `POST /data` of a reading with a sensor id answers with status 200, and a `GET /data` that is
  -- answered then returns the JSON of the first database's readings with the new one at the end.
  pub post-get :
      (w : World Timestamp) (req req' : Request) (d : SensorData) (s : Service)
      (nodes : List Service)
      → Undisturbed w.trial.plan.prepares
      → Undisturbed w.trial.plan.commits
      → Answered w.trial.plan.prepares
      → Answered w.trial.plan.commits
      → w.read_fate ≡ delivered
      → unmarshal_reading req.body ≡ ok d
      → is_empty d.sensor_id ≡ false
      → IsNew (generate_transaction_id w.trial.random w.trial.unix_nano) (s ∷ nodes)
      → ((post_data pb json w req (s ∷ nodes)).1.status_code ≡ status_ok)
        × ((get_data pb json w req' (post_data pb json w req (s ∷ nodes)).0).1
            ≡ json_response json
                (marshal_readings (trim s.max_data_points (s.points ++ stamp w.now d ∷ []))))
  unfolding stored_response plain_response add_data_point_internal
  post-get w req req' d s nodes alone_p alone_c ans_p ans_c fate body named fresh =
      rw
        (
          post_data-ok w req d (s ∷ nodes) alone_p alone_c ans_p ans_c body named fresh,
          get_data-points w req' (add_data_point_internal (stamp w.now d) s)
              (map (add_data_point_internal (stamp w.now d)) nodes) fate,
        )
        (refl, refl)
