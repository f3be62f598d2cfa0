-- ===== src/Cmd/Store32.antt =====
-- cmd/server_32/main.go, the type `DataStore`: the store of the single-server program.
pub mod Handlers
pub mod Wire
pub mod Main
use distributed_systems_go.Base.{
  ℕ, ◌-◌, ◌≡◌, inl, inr, Bool-cases, List, [], ◌∷◌, ◌++◌, append-nil, append_assoc, sym, ap₂, ltb,
  if◌then◌else◌, length, drop, keep, Text,
}
use distributed_systems_go.Types.{SensorData}
use distributed_systems_go.Database.Service.{Service, of_sensor, trim, add_data_point_internal}

pub record DataStore : Type 0 where
  pub points : List SensorData
  pub limit : ℕ

-- `DataStoreFactory`
unfoldable pub data_store_factory : ℕ → DataStore
data_store_factory limit = record { points = []; limit = limit }

-- `AddDataPoint`
unfoldable pub store_data_point : SensorData → DataStore → DataStore
store_data_point d ds =
    let all = ds.points ++ d ∷ [] in
    record ds {
      points = if ltb ds.limit (length all) then drop (length all - ds.limit) all else all;
    }

-- `GetAllDataPoints`, which returns a copy
unfoldable pub stored_points : DataStore → List SensorData
stored_points ds = ds.points

-- the loop of `GetDataPointBySensorId`, with the result so far
unfoldable pub collect_points : Text → List SensorData → List SensorData → List SensorData
collect_points id [] result = result
collect_points id (d ∷ ds) result =
    collect_points id ds (if of_sensor id d then result ++ d ∷ [] else result)

-- `GetDataPointBySensorId`
unfoldable pub points_by_sensor_id : Text → DataStore → List SensorData
unfolding collect_points
points_by_sensor_id id ds = collect_points id ds.points []

abbrev pub store_all : List SensorData → DataStore → DataStore
store_all [] ds = ds
store_all (x ∷ xs) ds = store_all xs (store_data_point x ds)

abbrev pub serve_all : List SensorData → Service → Service
serve_all [] s = s
serve_all (x ∷ xs) s = serve_all xs (add_data_point_internal x s)

pub store_data_point-points :
    (d : SensorData) (ds : DataStore) (s : Service)
    → ds.points ≡ s.points
    → ds.limit ≡ s.max_data_points
    → (store_data_point d ds).points ≡ (add_data_point_internal d s).points
unfolding store_data_point add_data_point_internal trim
store_data_point-points d ds s e l = ap₂ (λ (xs : List SensorData) n. trim n (xs ++ d ∷ [])) e l

-- Under the same additions the store of the single-server program and a database server with the
-- same limit hold the same readings.
pub store_all-serve_all :
    (xs : List SensorData) (ds : DataStore) (s : Service)
    → ds.points ≡ s.points
    → ds.limit ≡ s.max_data_points
    → (store_all xs ds).points ≡ (serve_all xs s).points
store_all-serve_all [] ds s e l = e
store_all-serve_all (x ∷ xs) ds s e l =
    store_all-serve_all xs (store_data_point x ds) (add_data_point_internal x s)
      (store_data_point-points x ds s e l) (unfold store_data_point add_data_point_internal in l)

collect_points-keep :
    (id : Text) (ds result : List SensorData)
    → collect_points id ds result ≡ result ++ keep (of_sensor id) ds
unfolding collect_points
collect_points-keep id [] result = sym (append-nil result)
collect_points-keep id (d ∷ ds) result = elim (Bool-cases (of_sensor id d)) [
  | inl mine ↦
      rw (mine, collect_points-keep id ds (result ++ d ∷ []))
        (append_assoc result (d ∷ []) (keep (of_sensor id) ds))
  | inr other ↦ rw (other, collect_points-keep id ds result)
]

-- The query of a sensor returns exactly its readings, in the order of storage.
pub points_by_sensor_id-keep :
    (id : Text) (ds : DataStore) → points_by_sensor_id id ds ≡ keep (of_sensor id) ds.points
unfolding points_by_sensor_id
points_by_sensor_id-keep id ds = collect_points-keep id ds.points []
