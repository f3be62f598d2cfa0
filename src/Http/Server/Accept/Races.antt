-- ===== src/Http/Server/Accept/Races.antt =====
-- Two orders of the goroutines that the code does not guard against.
use distributed_systems_go.Base.{◌≡◌, refl, true, false, [], ◌∷◌, some}
use distributed_systems_go.Http.Message.{Response}
use distributed_systems_go.Http.Parse.{Parsed}
use distributed_systems_go.Http.Server.{Server, serve}
use distributed_systems_go.Http.Server.Accept.{
  returned, Life, Conn, new_life, listening, taken, claims, listens, panics, closes, returns,
  accepts, hands_over, answers, of_start, of_stop, of_loop, of_conn, Run, here, and_then,
}

module _ {S : Type 0} (server : Server S) (st : S) where
  -- `Stop`, called between the first critical section of `Start` and `net.Listen`, closes a nil
  -- listener, which is a panic.
  start-panics : (t : Life S) × Run server (new_life st) 2 t × (t.crashed ≡ true)
  unfolding new_life
  start-panics = (
    _,
    and_then (and_then here (of_start refl (claims refl refl refl)))
        (of_stop refl (panics refl refl refl)),
    refl,
  )

  -- the state after `Stop` has returned with a connection in the loop's hand
  abbrev left_over : Parsed → Life S
  left_over request = record {
    starting = listening;
    stopping = returned;
    running = false;
    listener = some false;
    loop = taken (record { number = 0; request = request });
    handling = [];
    finished = [];
    next = 1;
    crashed = false;
    state = st;
  }

  left_over-Run : (request : Parsed) → Run server (new_life st) 5 (left_over request)
  unfolding new_life
  left_over-Run request =
      and_then
        (and_then
          (and_then
            (and_then (and_then here (of_start refl (claims refl refl refl)))
              (of_start refl (listens refl)))
            (of_loop refl (accepts request refl refl)))
          (of_stop refl (closes true refl refl refl)))
        (of_stop refl (returns refl refl))

  -- For every request that a server answers there is a run of a new server in which `Stop` returns while no
  -- goroutine handles a connection, and in which the loop then hands over the connection that it had accepted
  -- before, whose request is handled and answered after the return.
  pub stop-late :
      (request : Parsed) (st' : S) (r : Response)
      → serve server request st ≡ some (st', r)
      → (s : Life S) × (t : Life S) × Run server (new_life st) 5 s
        × (s.stopping ≡ returned)
        × (s.handling ≡ [])
        × (s.state ≡ st)
        × Run server s 2 t
        × (t.state ≡ st')
        × (t.finished ≡ (0, some r) ∷ [])
  stop-late request st' r answered =
      let c : Conn = record { number = 0; request = request } in
      (
        left_over request,
        _,
        left_over-Run request,
        refl,
        refl,
        refl,
        and_then (and_then here (of_loop refl (hands_over c refl)))
            (of_conn refl (answers [] [] c st' r refl answered)),
        refl,
        refl,
      )
