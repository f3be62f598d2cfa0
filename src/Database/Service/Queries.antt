-- ===== src/Database/Service/Queries.antt =====
-- Reading, updating and deleting the stored readings.
use distributed_systems_go.Base.{
  ◌≡◌, refl, ◌∙◌, sym, ap, true, false, not, inl, inr, ◌⊎◌, Bool-cases, List, [], ◌∷◌, ◌++◌, map,
  append-nil, append_assoc, arith, Option, some, if◌then◌else◌, keep, All, Text, is_empty, eq_text,
  eq_text_iff,
}
use distributed_systems_go.Types.{Time, SensorData}
use distributed_systems_go.Rpc.{TimestampPb, SensorDataRequest, SensorIdRequest}
use distributed_systems_go.Database.Service.{
  Service, of_sensor, at_key, collect_sensor, get_sensor_data_by_sensor_id, delete_sensor_data,
  sensor_data_to_proto, update_first, update_sensor_data, update_stamped, update_at,
}

abbrev pub sensor_request : Text → SensorIdRequest
sensor_request id = record { sensor_id = id }

-- Deleting one sensor's readings, seen through the readings of a sensor.
keep-delete :
    (i j : Text) (ds : List SensorData)
    → keep (of_sensor j) (keep (λ d. not (of_sensor i d)) ds)
      ≡ (if eq_text i j then [] else keep (of_sensor j) ds)
keep-delete i j [] = ground arith
keep-delete i j (d ∷ ds) = ground (
  arith,
  eq_text_iff d.sensor_id i,
  eq_text_iff d.sensor_id j,
  eq_text_iff i j,
  keep-delete i j ds,
)

-- Where the update of the first reading under a key strikes.
pub record Struck {T : Type 0} (id : Text) (t : Time) (req : SensorDataRequest T)
    (old new : List SensorData) : Type 0 where
  pub before : List SensorData
  pub hit : SensorData
  pub after : List SensorData
  pub is_old : old ≡ before ++ hit ∷ after
  pub is_new : new ≡ before ++ record hit { value = req.value; unit = req.unit } ∷ after
  pub hit_key : at_key id t hit ≡ true
  pub first : All (λ d. at_key id t d ≡ false) before

module _ (pb : TimestampPb) where
  open pb use {Timestamp, as_time}

  collect_sensor-keep :
      (id : Text) (ds : List SensorData) (result : List (SensorDataRequest Timestamp))
      → collect_sensor pb id ds result
        ≡ result ++ map (sensor_data_to_proto pb) (keep (of_sensor id) ds)
  unfolding collect_sensor
  collect_sensor-keep id [] result = sym (append-nil result)
  collect_sensor-keep id (d ∷ ds) result = elim (Bool-cases (of_sensor id d)) [
    | inl mine ↦
        rw (mine, collect_sensor-keep id ds (result ++ sensor_data_to_proto pb d ∷ []))
          (append_assoc result (sensor_data_to_proto pb d ∷ []) _)
    | inr other ↦ rw (other, collect_sensor-keep id ds result)
  ]

  -- For a sensor id that is not empty, `GetSensorDataBySensorId` returns exactly the readings of
  -- that sensor, in the order of storage.
  pub get_sensor_data-keep :
      (id : Text) (s : Service)
      → is_empty id ≡ false
      → (get_sensor_data_by_sensor_id pb (sensor_request id) s).items
        ≡ map (sensor_data_to_proto pb) (keep (of_sensor id) s.points)
  unfolding get_sensor_data_by_sensor_id
  get_sensor_data-keep id s named = rw named (collect_sensor-keep id s.points [])

  -- After a delete of sensor `i`, a query for `j` returns nothing if `j` is `i`, and what it
  -- returned before otherwise.
  pub get-delete :
      (i j : Text) (s : Service)
      → is_empty i ≡ false
      → is_empty j ≡ false
      → (get_sensor_data_by_sensor_id pb
          (sensor_request j)
          (delete_sensor_data (sensor_request i) s).0).items
        ≡ (if eq_text i j then [] else (get_sensor_data_by_sensor_id pb (sensor_request j) s).items)
  unfolding delete_sensor_data
  get-delete i j s ni nj = rw ni (
      get_sensor_data-keep j _ nj
      ∙ ap (map (sensor_data_to_proto pb)) (keep-delete i j s.points)
      ∙ elim (Bool-cases (eq_text i j)) [
        | inl same ↦ rw same
        | inr other ↦ rw (other, get_sensor_data-keep j s nj)
      ])

  update_first-Struck :
      (id : Text) (t : Time) (req : SensorDataRequest Timestamp) (ds : List SensorData)
      → ((update_first pb id t req ds).1 ≡ true
          × Struck id t req ds (update_first pb id t req ds).0)
        ⊎ ((update_first pb id t req ds ≡ (ds, false)) × All (λ d. at_key id t d ≡ false) ds)
  unfolding update_first
  update_first-Struck id t req [] = inr (refl, tt)
  update_first-Struck id t req (d ∷ ds) = elim (Bool-cases (at_key id t d)) [
    | inl hit ↦ rw hit (
        inl (
          refl,
          record {
            before = [];
            hit = d;
            after = ds;
            is_old = refl;
            is_new = refl;
            hit_key = hit;
            first = tt;
          },
        ))
    | inr miss ↦ elim (update_first-Struck id t req ds) [
      | inl (found, st) ↦ rw miss (
          inl (
            found,
            record {
              before = d ∷ st.before;
              hit = st.hit;
              after = st.after;
              is_old = ap (◌∷◌ d) st.is_old;
              is_new = ap (◌∷◌ d) st.is_new;
              hit_key = st.hit_key;
              first = (miss, st.first);
            },
          ))
      | inr (same, none_hit) ↦ rw (miss, same) (inr (refl, (refl, none_hit)))
    ]
  ]

  update_stamped-some :
      (o : Option Timestamp) (ts : Timestamp) (req : SensorDataRequest Timestamp) (s : Service)
      → is_empty req.sensor_id ≡ false
      → o ≡ some ts
      → update_stamped pb o req s ≡ update_at pb (as_time (some ts)) req s
  unfolding update_stamped
  update_stamped-some o ts req s named e = rw (e, named)

  update_sensor_data-at :
      (ts : Timestamp) (req : SensorDataRequest Timestamp) (s : Service)
      → is_empty req.sensor_id ≡ false
      → req.timestamp ≡ some ts
      → update_sensor_data pb req s ≡ update_at pb (as_time (some ts)) req s
  unfolding update_sensor_data
  update_sensor_data-at ts req s named e = update_stamped-some req.timestamp ts req s named e

  -- An update with a sensor id and a time stamp either rewrites value and unit of the first
  -- reading with that id and time and of no other, and succeeds; or no reading has them, and it
  -- fails and changes nothing. No other part of the state changes.
  pub update-Struck :
      (req : SensorDataRequest Timestamp) (ts : Timestamp) (s : Service)
      → is_empty req.sensor_id ≡ false
      → req.timestamp ≡ some ts
      → ((update_sensor_data pb req s).1.success ≡ true
          × Struck req.sensor_id
              (as_time (some ts))
              req
              s.points
              (update_sensor_data pb req s).0.points
          × ((update_sensor_data pb req s).0
              ≡ record s { points = (update_sensor_data pb req s).0.points }))
        ⊎ ((update_sensor_data pb req s).1.success ≡ false
            × ((update_sensor_data pb req s).0 ≡ s)
            × All (λ d. at_key req.sensor_id (as_time (some ts)) d ≡ false) s.points)
  unfolding update_at
  update-Struck req ts s named stamped =
      rw (update_sensor_data-at ts req s named stamped)
        (elim (update_first-Struck req.sensor_id (as_time (some ts)) req s.points) [
          | inl (found, st) ↦ rw found (inl (refl, st, refl))
          | inr (same, none_hit) ↦ rw same (inr (refl, refl, none_hit))
        ])
