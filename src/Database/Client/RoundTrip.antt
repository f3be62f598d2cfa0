-- ===== src/Database/Client/RoundTrip.antt =====
-- Readings come back from a server as they went in.
use distributed_systems_go.Base.{
  ◌≡◌, refl, List, [], ◌∷◌, ◌++◌, map, false, keep, Text, is_empty, ok,
}
use distributed_systems_go.Types.{Time, SensorData}
use distributed_systems_go.Rpc.{TimestampPb, KeepsTime}
use distributed_systems_go.Database.Service.{
  Service, of_sensor, trim, add_data_point_internal, create_sensor_data, proto_to_sensor_data,
  sensor_data_to_proto, get_all_sensor_data,
}
use distributed_systems_go.Database.Service.Queries.{get_sensor_data-keep}
use distributed_systems_go.Database.Client.{
  delivered, to_request, of_request, add_data_point, get_all_data_points,
  get_data_point_by_sensor_id,
}

module _ (pb : TimestampPb) (keeps : KeepsTime pb) where
  -- What the server makes of the client's request is the reading itself.
  pub proto_to_sensor_data-to_request :
      (now : Time) (d : SensorData) → proto_to_sensor_data pb now (to_request pb d) ≡ d
  unfolding proto_to_sensor_data
  proto_to_sensor_data-to_request now d = rw (keeps.as_time-new d.timestamp)

  map-of_request :
      (ds : List SensorData) → map (of_request pb) (map (sensor_data_to_proto pb) ds) ≡ ds
  unfolding sensor_data_to_proto
  map-of_request [] = refl
  map-of_request (d ∷ ds) = rw (map-of_request ds, keeps.as_time-new d.timestamp)

  -- A client whose call is answered reads exactly what the server stores.
  pub get_all_data_points-points :
      (s : Service) → get_all_data_points pb delivered s ≡ (s, ok s.points)
  unfolding get_all_data_points get_all_sensor_data
  get_all_data_points-points s = rw (map-of_request s.points)

  pub get_data_point-keep :
      (id : Text) (s : Service)
      → is_empty id ≡ false
      → get_data_point_by_sensor_id pb delivered id s ≡ (s, ok (keep (of_sensor id) s.points))
  unfolding get_data_point_by_sensor_id
  get_data_point-keep id s named =
      rw (get_sensor_data-keep pb id s named, map-of_request (keep (of_sensor id) s.points))

  add_data_point-stored :
      (now : Time) (d : SensorData) (s : Service)
      → is_empty d.sensor_id ≡ false
      → add_data_point pb delivered now d s ≡ (add_data_point_internal d s, ok tt)
  unfolding add_data_point create_sensor_data
  add_data_point-stored now d s named = rw (named, proto_to_sensor_data-to_request now d)

  -- A reading with a sensor id that a client adds is stored unchanged, at the end, by one answered
  -- call, and reading back all points shows it there.
  pub get_all-add :
      (now : Time) (d : SensorData) (s : Service)
      → is_empty d.sensor_id ≡ false
      → (add_data_point pb delivered now d s ≡ (add_data_point_internal d s, ok tt))
        × (get_all_data_points pb delivered (add_data_point pb delivered now d s).0
            ≡ (add_data_point_internal d s, ok (trim s.max_data_points (s.points ++ d ∷ []))))
  unfolding add_data_point_internal
  get_all-add now d s named =
      let stored : add_data_point pb delivered now d s ≡ (add_data_point_internal d s, ok tt) =
        add_data_point-stored now d s named in
      (stored, rw stored (get_all_data_points-points (add_data_point_internal d s)))
