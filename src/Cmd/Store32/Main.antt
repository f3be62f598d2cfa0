-- ===== src/Cmd/Store32/Main.antt =====
-- cmd/server_32/main.go, `main`, on the values of the flags. `listen` is `net.Listen`, and between
-- `Start` and the signal the connections deliver bytes, each at its time. A handler takes the
-- store's lock once, so concurrent handlers act one after the other.
use distributed_systems_go.Base.{
  Option, none, some, true, ℕ, ◌≤◌, ◌≡◌, false, List, ◌∷◌, ◌++◌, Text, text, is_empty, length,
  Result, ok, err, All,
}
use distributed_systems_go.Base.Int.{ℤ, pos, show_int}
use distributed_systems_go.Types.{Time}
use distributed_systems_go.Http.Server.{Server, server_factory, start, stop}
use distributed_systems_go.Http.Parse.{Parsed}
use distributed_systems_go.Http.Server.Session.{serve_each, has_crash}
use distributed_systems_go.Cmd.Json.{Json}
use distributed_systems_go.Cmd.Program.{Exit, fatal, panicked, at_work, finished}
use distributed_systems_go.Cmd.Store32.{DataStore, data_store_factory}
use distributed_systems_go.Cmd.Store32.Handlers.{register_store_handlers}

-- the flags
pub record Flags : Type 0 where
  pub host : Text
  pub port : ℤ
  pub data_limit : ℕ

-- the server is made before the flags are parsed, from their defaults
unfoldable pub made_server : Server DataStore
made_server = server_factory (text "0.0.0.0") (pos 8080)

module _ (json : Json) (page : Text) where
  -- the server for a request that comes at the time `now`
  abbrev pub registered : Server DataStore → Time → Server DataStore
  registered s now = register_store_handlers json page now s

  -- from the outcome of the connections to the end
  abbrev pub after_signal :
      Result (Unit {0}) → Server DataStore → Option DataStore → Exit (Server DataStore × DataStore)
  after_signal closes server none = panicked
  after_signal closes server (some ds) = finished ((stop closes server).0, ds)

  unfoldable pub after_start :
      Result (Unit {0})
      → List (Time × Parsed)
      → DataStore
      → Server DataStore × Result (Unit {0})
      → Exit (Server DataStore × DataStore)
  after_start closes ps ds (server, err e) = fatal (text "Failed to start server: " ++ e)
  after_start closes ps ds (server, ok _) =
      after_signal closes server (serve_each (registered server) ps ds)

  -- `main`
  unfoldable pub main :
      (Text → Result (Unit {0}))
      → Result (Unit {0})
      → List (Time × Parsed)
      → Flags
      → Exit (Server DataStore × DataStore)
  unfolding after_start made_server
  main listen closes ps f =
      after_start closes ps (data_store_factory f.data_limit)
        (start (listen (made_server.host ++ (b':' ∷ show_int made_server.port))) made_server)

-- The store holds readings of sensors, at most as many as the limit.
abbrev pub IsGood : ℕ → DataStore → Type 0
IsGood limit ds =
    (ds.limit ≡ limit)
    × (length ds.points ≤ limit)
    × All (λ d. is_empty d.sensor_id ≡ false) ds.points

-- `main` has ended after the signal, with the server stopped and a good store, and no request has
-- crashed it; or a request has, in the parsing of its bytes; or listening on the default address
-- failed.
abbrev pub IsLimited :
    (Text → Result (Unit {0}))
    → List (Time × Parsed)
    → ℕ
    → Exit (Server DataStore × DataStore)
    → Type 0
IsLimited listen ps limit (finished (server, ds)) =
    (server.running ≡ false) × (has_crash ps ≡ false) × IsGood limit ds
IsLimited listen ps limit panicked = has_crash ps ≡ true
IsLimited listen ps limit (fatal e) = (why : Text) × (listen (text "0.0.0.0:8080") ≡ err why)
IsLimited listen ps limit (at_work s) = ⊥
