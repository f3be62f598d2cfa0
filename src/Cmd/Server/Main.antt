-- ===== src/Cmd/Server/Main.antt =====
-- cmd/server/main.go, `main`, on the values of the flags. The results of the third-party calls are
-- arguments: `dials` of connecting, `listen` of `net.Listen`, `closes` of closing the listener, and
-- `errors` of closing the connections. Between `Start` and the signal the connections deliver
-- bytes, and each meets a world.
use distributed_systems_go.Base.{
  none, some, true, ℕ, ◌≡◌, ◌⊎◌, false, [], ◌∷◌, ◌++◌, List, Option, Text, text, Result, ok, err,
}
use distributed_systems_go.Base.Int.{ℤ}
use distributed_systems_go.Rpc.{TimestampPb}
use distributed_systems_go.Database.Service.{Service}
use distributed_systems_go.Database.Connection.{
  Network, TwoPhaseCommitClient, two_phase_commit_client_factory, close_all,
}
use distributed_systems_go.Database.Connection.Cleanup.{Fails}
use distributed_systems_go.Http.Server.{Server, server_factory, start, stop}
use distributed_systems_go.Http.Parse.{Parsed}
use distributed_systems_go.Http.Server.Session.{serve_each, has_crash}
use distributed_systems_go.Cmd.Json.{Json}
use distributed_systems_go.Cmd.Server.{World, register_handlers}
use distributed_systems_go.Cmd.Program.{Exit, fatal, panicked, at_work, finished}

-- the flags
pub record Flags : Type 0 where
  pub host : Text
  pub port : ℤ
  pub db_addr1 : Text
  pub db_addr2 : Text

-- The program ends without a fatal error, with the server stopped and no further connection open, and
-- no request has crashed it; or a request has, in the parsing of its bytes; or it ends because a
-- connection to a database fails, and no further one is open, or because listening fails.
abbrev pub IsDown :
    {A S : Type 0}
    → (ℕ → Option Text)
    → Result (Unit {0})
    → List (A × Parsed)
    → Network
    → Network × Exit (Server S × S)
    → Type 0
IsDown dials listen ps s (s', finished (server, st)) =
    (s'.opened ≡ s.opened) × (server.running ≡ false) × (has_crash ps ≡ false)
IsDown dials listen ps s (s', panicked) = has_crash ps ≡ true
IsDown dials listen ps s (s', at_work server) = ⊥
IsDown dials listen ps s (s', fatal e) =
    (s'.opened ≡ s.opened) × Fails dials 0 2 ⊎ ((why : Text) × (listen ≡ err why))

module _ (closes : Result (Unit {0})) (errors : ℕ → Option Text) {S : Type 0} where
  -- after the signal the server stops, and the deferred `Close` runs; a crash runs neither
  abbrev pub after_signal :
      TwoPhaseCommitClient → Network → Server S → Option S → Network × Exit (Server S × S)
  after_signal t s server none = (s, panicked)
  after_signal t s server (some st) =
      ((close_all errors t s).0, finished ((stop closes server).0, st))

  -- `main` from `Start` on; `log.Fatalf` leaves the deferred `Close` out
  unfoldable pub after_start :
      {A : Type 0}
      → (A → Server S)
      → TwoPhaseCommitClient
      → Network
      → List (A × Parsed)
      → S
      → Server S × Result (Unit {0})
      → Network × Exit (Server S × S)
  after_start at t s ps st (server, err e) = (s, fatal (text "Failed to start server: " ++ e))
  after_start at t s ps st (server, ok _) = after_signal t s server (serve_each at ps st)

module _ (pb : TimestampPb) (json : Json) (page : Text) (dials : ℕ → Option Text)
    (listen closes : Result (Unit {0})) (errors : ℕ → Option Text) where
  open pb use {Timestamp}

  -- the server with its handlers, for a request that meets that world
  abbrev registered : Flags → World Timestamp → Server (List Service)
  registered f w = register_handlers pb json page w (server_factory f.host f.port)

  -- A handler meets the world of its request, so the handlers are registered for each request.
  unfoldable pub after_connecting :
      Flags
      → List (World Timestamp × Parsed)
      → List Service
      → Network × Result TwoPhaseCommitClient
      → Network × Exit (Server (List Service) × List Service)
  unfolding after_start
  after_connecting f ps nodes (s, err e) =
      (s, fatal (text "Failed to connect to database services: " ++ e))
  after_connecting f ps nodes (s, ok t) =
      after_start closes errors (registered f) t s ps nodes
        (start listen (server_factory f.host f.port))

  -- `main`
  unfoldable pub main :
      Flags
      → List (World Timestamp × Parsed)
      → List Service
      → Network
      → Network × Exit (Server (List Service) × List Service)
  unfolding after_connecting
  main f ps nodes s =
      after_connecting f ps nodes
        (two_phase_commit_client_factory dials (f.db_addr1 ∷ f.db_addr2 ∷ []) s)
