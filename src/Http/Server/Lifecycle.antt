-- ===== src/Http/Server/Lifecycle.antt =====
-- Starting and stopping the server.
use distributed_systems_go.Base.{
  ◌≡◌, refl, false, inl, inr, Bool-cases, not, ◌&&◌, ◌||◌, Result, ok, err, is_ok,
}
use distributed_systems_go.Http.Server.{Server, start, stop}

module _ {S : Type 0} where
  -- A server that did not run is as before after a start and a stop, and the stop returns what
  -- closing the listener returned.
  pub stop-start :
      (close : Result (Unit {0})) (s : Server S)
      → s.running ≡ false
      → stop close (start (ok tt) s).0 ≡ (s, close)
  unfolding stop start
  stop-start close s idle = rw (idle, start) refl

  -- After a call of `Start` the server runs if and only if it ran before or its listener was opened;
  -- the call returns no error exactly if the server did not run and the listener was opened.
  pub start-running :
      (listen : Result (Unit {0})) (s : Server S)
      → ((start listen s).0.running ≡ s.running || is_ok listen)
        × (is_ok (start listen s).1 ≡ not s.running && is_ok listen)
  unfolding start
  start-running (ok _) s = elim (Bool-cases s.running) [
    | inl e ↦ rw (e, start) (refl, refl)
    | inr e ↦ rw (e, start) (refl, refl)
  ]
  start-running (err _) s = elim (Bool-cases s.running) [
    | inl e ↦ rw (e, start) (refl, refl)
    | inr e ↦ rw (e, start) (refl, refl)
  ]
