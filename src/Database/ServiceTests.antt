-- ===== src/Database/ServiceTests.antt =====
-- Runs of one database server, and its theorems at them.
use distributed_systems_go.Base.{
  ◌≡◌, ◌≤◌, ◌+◌, ◌⊎◌, refl, List, [], ◌∷◌, arith, true, false, text, eq_text, All,
}
use distributed_systems_go.Base.Table.{lookup, insert, erase}
use distributed_systems_go.Types.{Time}
use distributed_systems_go.Database.Service.{
  create_sensor_data, tick, cleanup_expired_transactions, remove_expired, is_expired, trim,
  database_service_factory, add_data_point_internal, succeeded, at_key, commit_transaction,
  abort_transaction, prepare_transaction, proto_to_sensor_data, get_sensor_data_by_sensor_id,
  update_sensor_data, sensor_data_to_proto,
}
use distributed_systems_go.Database.Service.Request.{
  Request, create, prepare, commit, abort, clock, run, handle,
}
use distributed_systems_go.Database.Service.Invariant.{
  IsValid, run-IsValid, database_service_factory-IsValid,
}
use distributed_systems_go.Database.Service.Participant.{
  id_request, prepare_request, commit-prepare,
}
use distributed_systems_go.Database.Service.Queries.{
  sensor_request, get_sensor_data-keep, Struck, update-Struck,
}
use distributed_systems_go.Database.Service.Spec.{
  Implements, IsEndOf, promise_all, empty_ledger, run_from_new,
}
use distributed_systems_go.Database.Service.Once.{
  AreStores, held, count_stores, count_votes, stores-le-votes,
}
use distributed_systems_go.Database.Fixtures.{instants, reading, request, server, full_server, txn}

abbrev history : List (Request Time)
history =
    prepare 10 11 (prepare_request instants txn (request 3 9))
    ∷ create 12 (request 1 12)
    ∷ commit (id_request txn)
    ∷ commit (id_request txn)
    ∷ prepare 13 13 (prepare_request instants txn (request 4 13))
    ∷ clock 14
    ∷ abort (id_request txn)
    ∷ []

-- The second commit and the aborted reading leave nothing.
run-history :
    (run instants history (database_service_factory 2)).points ≡ reading 1 12 ∷ reading 3 9 ∷ []
unfolding run handle create_sensor_data prepare_transaction commit_transaction abort_transaction
    tick database_service_factory cleanup_expired_transactions remove_expired is_expired
    proto_to_sensor_data add_data_point_internal trim lookup insert erase eq_text
run-history = refl

run-IsValid_example : IsValid (run instants history (database_service_factory 2))
run-IsValid_example =
    run-IsValid instants history (database_service_factory 2) (database_service_factory-IsValid 2)

run_from_new_example :
    IsEndOf 2
      (promise_all instants history (empty_ledger 2)).log
      (run instants history (database_service_factory 2)).points
    × Implements
        (run instants history (database_service_factory 2))
        (promise_all instants history (empty_ledger 2))
    × ((run instants history (database_service_factory 2)).max_data_points ≡ 2)
run_from_new_example = run_from_new instants 2 history (omega arith)

stores-le-votes_example :
    AreStores instants history (database_service_factory 2)
    × (count_stores instants txn history (database_service_factory 2)
          + held txn (run instants history (database_service_factory 2))
        ≤ count_votes instants txn history (database_service_factory 2)
          + held txn (database_service_factory 2))
stores-le-votes_example =
    stores-le-votes instants txn history (database_service_factory 2)
      (database_service_factory-IsValid 2)

commit-prepare_example :
    commit_transaction
      (id_request txn)
      (prepare_transaction instants 10 11 (prepare_request instants txn (request 3 9)) server).0
    ≡ (
      add_data_point_internal (proto_to_sensor_data instants 10 (request 3 9)) server,
      succeeded (text "Transaction committed successfully"),
    )
unfolding lookup
commit-prepare_example = commit-prepare instants 10 11 txn (request 3 9) server refl refl refl

get_sensor_data-keep_example :
    (get_sensor_data_by_sensor_id instants (sensor_request (2 ∷ [])) full_server).items
    ≡ sensor_data_to_proto instants (reading 2 6) ∷ []
unfolding eq_text
get_sensor_data-keep_example = get_sensor_data-keep instants (2 ∷ []) full_server refl

update-Struck_example :
    ((update_sensor_data instants (request 2 6) full_server).1.success ≡ true
      × Struck
          (2 ∷ [])
          6
          (request 2 6)
          full_server.points
          (update_sensor_data instants (request 2 6) full_server).0.points
      × ((update_sensor_data instants (request 2 6) full_server).0 ≡ record full_server {
        points = (update_sensor_data instants (request 2 6) full_server).0.points;
      }))
    ⊎ ((update_sensor_data instants (request 2 6) full_server).1.success ≡ false
        × ((update_sensor_data instants (request 2 6) full_server).0 ≡ full_server)
        × All (λ d. at_key (2 ∷ []) 6 d ≡ false) full_server.points)
update-Struck_example = update-Struck instants (request 2 6) 6 full_server refl refl
