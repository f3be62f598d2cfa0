-- ===== src/Cmd/Database.antt =====
-- cmd/database/main.go, `main`, on the values of the flags. `listen` is `net.Listen`, and `served` an
-- error that `Serve` may return before the signal; between the start of the gRPC server and its
-- graceful stop, the service handles requests, in the order in which their handlers take its lock.
use distributed_systems_go.Base.{
  ℕ, ◌≡◌, ◌⊎◌, inl, inr, refl, ◌++◌, List, Text, text, Result, ok, err, All,
}
use distributed_systems_go.Base.Int.{ℤ, show_int}
use distributed_systems_go.Rpc.{TimestampPb}
use distributed_systems_go.Database.Service.{Service, database_service_factory}
use distributed_systems_go.Database.Service.Request.{Request, run}
use distributed_systems_go.Database.Service.Invariant.{
  IsValid, run-IsValid, database_service_factory-IsValid,
}
use distributed_systems_go.Database.Service.Spec.{
  IsAppend, Implements, IsEndOf, promise_all, empty_ledger, run_from_new,
}
use distributed_systems_go.Cmd.Program.{Exit, fatal, finished}

-- the flags
pub record Flags : Type 0 where
  pub port : ℤ
  pub data_limit : ℕ

abbrev pub address : Flags → Text
address f = text "0.0.0.0:" ++ show_int f.port

module _ (pb : TimestampPb) where
  open pb use {Timestamp}

  abbrev pub after_listen :
      Flags → List (Request Timestamp) → Result (Unit {0}) → Result (Unit {0}) → Exit Service
  after_listen f rs served (err e) =
      fatal (text "Failed to listen on " ++ (address f ++ (text ": " ++ e)))
  after_listen f rs (err e) (ok _) = fatal (text "Failed to serve: " ++ e)
  after_listen f rs (ok _) (ok _) = finished (run pb rs (database_service_factory f.data_limit))

  -- `main`
  unfoldable pub main :
      (Text → Result (Unit {0}))
      → Result (Unit {0})
      → List (Request Timestamp)
      → Flags
      → Exit Service
  main listen served rs f = after_listen f rs served (listen (address f))

  -- `main` has ended after the signal, with a valid service that implements the specification of its
  -- requests and has the flag's limit; or because listening or serving failed.
  abbrev pub IsServed :
      (Text → Result (Unit {0}))
      → Result (Unit {0})
      → List (Request Timestamp)
      → Flags
      → Exit Service
      → Type 0
  IsServed listen served rs f (finished s) =
      IsValid s
      × IsEndOf f.data_limit (promise_all pb rs (empty_ledger f.data_limit)).log s.points
      × Implements s (promise_all pb rs (empty_ledger f.data_limit))
      × (s.max_data_points ≡ f.data_limit)
  IsServed listen served rs f (fatal e) =
      (why : Text) × ((listen (address f) ≡ err why) ⊎ (served ≡ err why))
  IsServed listen served rs f _ = ⊥

  after_listen-IsServed :
      (listen : Text → Result (Unit {0})) (served : Result (Unit {0}))
      (rs : List (Request Timestamp)) (f : Flags) (r : Result (Unit {0}))
      → All (IsAppend pb) rs
      → listen (address f) ≡ r
      → IsServed listen served rs f (after_listen f rs served r)
  after_listen-IsServed listen served rs f (err why) appends e = (why, inl e)
  after_listen-IsServed listen (err why) rs f (ok u) appends e = (why, inr refl)
  after_listen-IsServed listen (ok v) rs f (ok u) appends e =
      let (ends, implements, same) = run_from_new pb f.data_limit rs appends in
      (
        run-IsValid pb rs (database_service_factory f.data_limit)
            (database_service_factory-IsValid f.data_limit),
        ends,
        implements,
        same,
      )

  -- Over any requests but updates and deletes, `main` ends after the signal, with a service that
  -- keeps its invariant, has the flag's limit, and holds the last readings of the specification's
  -- log, as many as that limit allows, and exactly the specification's pending transactions; or
  -- because listening or serving failed.
  pub main-IsServed :
      (listen : Text → Result (Unit {0})) (served : Result (Unit {0}))
      (rs : List (Request Timestamp)) (f : Flags)
      → All (IsAppend pb) rs
      → IsServed listen served rs f (main listen served rs f)
  unfolding main
  main-IsServed listen served rs f appends =
      after_listen-IsServed listen served rs f (listen (address f)) appends refl
