-- ===== src/Database/Tests.antt =====
-- Runs of the coordinator on two servers, and its theorems at them.
use distributed_systems_go.Base.{
  ap, ◌↔◌, ◌++◌, ◌≡◌, ◌≢◌, refl, List, [], ◌∷◌, map, Result, ok, err, none, true, text, Text,
}
use distributed_systems_go.Base.Table.{lookup}
use distributed_systems_go.Database.Service.{
  prepare_transaction as serve_prepare, Service, add_data_point_internal, trim, tick, is_expired,
}
use distributed_systems_go.Database.Service.Request.{run}
use distributed_systems_go.Database.Client.{prepare_transaction}
use distributed_systems_go.Database.Coordinator.{
  add_data_point_with_two_phase_commit, prepare_loop, all_prepared, hex_encode,
}
use distributed_systems_go.Database.Coordinator.Node.{voting}
use distributed_systems_go.Database.Coordinator.Decision.{Committed, ok-Committed}
use distributed_systems_go.Database.Coordinator.Commit.{reliable_ok, ok-stored, prepared-settled}
use distributed_systems_go.Database.Coordinator.Rollback.{
  readings, refused-readings, refused-restored,
}
use distributed_systems_go.Database.Coordinator.Split.{split_commit}
use distributed_systems_go.Database.Fixtures.{
  instants, instants-KeepsTime, reading, server, full_server, answered, first_only, plan_of, txn,
}

abbrev servers : List Service
servers = server ∷ full_server ∷ []

reliable_ok_example :
    add_data_point_with_two_phase_commit instants
      (plan_of answered answered)
      txn
      (reading 3 9)
      servers
    ≡ (map (add_data_point_internal (reading 3 9)) servers, ok tt)
unfolding lookup
reliable_ok_example =
    reliable_ok instants instants-KeepsTime (plan_of answered answered) txn (reading 3 9) servers
      (λ i. refl) (λ i. refl) (λ i. refl) (λ i. refl) refl refl (refl, (refl, tt))

abbrev good_run : List Service × Result (Unit {0})
good_run =
    add_data_point_with_two_phase_commit instants (plan_of answered answered) txn (reading 3 9)
      servers

-- the commit reaches the first server only
abbrev split_run : List Service × Result (Unit {0})
split_run =
    add_data_point_with_two_phase_commit instants (plan_of answered first_only) txn (reading 3 9)
      servers

-- the prepare reaches the first server only
abbrev refused_run : List Service × Result (Unit {0})
refused_run =
    add_data_point_with_two_phase_commit instants (plan_of first_only answered) txn (reading 3 9)
      servers

ok-stored_example : good_run.0 ≡ map (add_data_point_internal (reading 3 9)) servers
ok-stored_example =
    ok-stored instants instants-KeepsTime (plan_of answered answered) txn (reading 3 9) servers
      good_run.0 (λ i. refl) (λ i. refl)
      (ap (λ r. (good_run.0, r))
        (ap (λ (x : List Service × Result (Unit {0})). x.1) reliable_ok_example))

ok-Committed_example :
    let after = map (add_data_point_internal (reading 3 9)) servers in
    let (prepared, votes) = prepare_loop instants answered 0 txn (reading 3 9) servers in
    (good_run ≡ (after, ok tt))
    ↔ ((all_prepared votes ≡ true) × Committed instants answered 0 txn prepared after)
ok-Committed_example =
    ok-Committed instants (plan_of answered answered) txn (reading 3 9) servers
      (map (add_data_point_internal (reading 3 9)) servers)

prepared-settled_example :
    (add_data_point_with_two_phase_commit instants
      (plan_of answered first_only)
      txn
      (reading 3 9)
      servers).0
    ≡ add_data_point_internal (reading 3 9) server
      ∷ voting instants 100 100 txn (reading 3 9) full_server
      ∷ []
unfolding lookup
prepared-settled_example =
    prepared-settled instants instants-KeepsTime (plan_of answered first_only) txn (reading 3 9)
      servers (λ i. refl) (λ i. refl) (λ i. refl) refl refl (refl, (refl, tt))

refused-readings_example :
    (readings refused_run.0 ≡ readings servers) × ((e : Text) × (refused_run.1 ≡ err e))
unfolding prepare_loop all_prepared prepare_transaction serve_prepare lookup run
refused-readings_example =
    refused-readings instants (plan_of first_only answered) txn (reading 3 9) servers (λ i. refl)
      (λ i. refl) refl

refused-restored_example : refused_run.0 ≡ servers
unfolding prepare_loop all_prepared prepare_transaction serve_prepare lookup run
refused-restored_example =
    refused-restored instants (plan_of first_only answered) txn (reading 3 9) servers (λ i. refl)
      (λ i. refl) (λ i. refl) (refl, (refl, tt)) refl

split_commit_example :
    let late = voting instants 100 100 txn (reading 3 9) full_server in
    (split_run.0 ≡ add_data_point_internal (reading 3 9) server ∷ late ∷ [])
    × (split_run.1 ≢ ok tt)
    × ((tick 40_000_000_000 late).points ≡ full_server.points)
    × (lookup txn (tick 40_000_000_000 late).prepared_txns ≡ none)
unfolding lookup is_expired
split_commit_example =
    split_commit instants instants-KeepsTime (plan_of answered first_only) txn (reading 3 9) server
      full_server 40_000_000_000 (λ i. refl) (λ i. refl) (λ i. refl) refl refl (refl, (refl, tt))
      refl refl tt refl refl

hex_encode-bytes : hex_encode (0 ∷ 171 ∷ 255 ∷ []) ≡ text "00abff"
unfolding hex_encode text
hex_encode-bytes = refl

-- The oldest reading is dropped.
trim-full : trim 2 (full_server.points ++ reading 3 9 ∷ []) ≡ reading 2 6 ∷ reading 3 9 ∷ []
unfolding trim
trim-full = refl
