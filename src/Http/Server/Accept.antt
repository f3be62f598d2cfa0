-- ===== src/Http/Server/Accept.antt =====
-- pkg/http/server.go, `Start`, `Stop` and `acceptConnections` as goroutines: one call of `Start`, one
-- of `Stop`, the accepting loop, and a goroutine for each connection, interleaved in any order. A step
-- is what happens between two points where another goroutine may come in. The mutex is taken by
-- `Stop` alone for more than a step. Handling a connection, with its reads, handler and write, is one
-- step that ends; what interferes with a handler at the databases is a part of Database.Coordinator.
-- If the wait group empties and a late `wg.Add` comes before `Wait` has returned, `Stop` waits again
-- here, where Go's `Wait` returns or panics about the reuse.
pub mod Places
pub mod Invariant
pub mod Ends
pub mod Races
use distributed_systems_go.Base.{
  ℕ, ◌+◌, ◌≡◌, Bool, true, false, List, [], ◌∷◌, ◌++◌, map, Option, none, some,
}
use distributed_systems_go.Http.Message.{Response}
use distributed_systems_go.Http.Parse.{Parsed}
use distributed_systems_go.Http.Server.{Server, serve}

-- how far `Start` has come: not called, past its first critical section, done, or failed
pub data Starting : Type 0 where
  not_started claimed listening start_failed : Starting

-- how far `Stop` has come: not called, waiting for the wait group with the mutex held, returned, or
-- refused with "server not running"
pub data Stopping : Type 0 where
  not_stopped waiting returned stop_refused : Stopping

-- an accepted connection, with what its bytes come to
pub record Conn : Type 0 where
  pub number : ℕ
  pub request : Parsed

-- where the loop of `acceptConnections` is: not begun, in `Accept`, before `wg.Add`, before the check
-- of `running`, or at its end
pub data Loop : Type 0 where
  no_loop accepting accept_failed loop_ended : Loop
  taken : Conn → Loop

-- The listener is nil, or open or not. A finished connection has its number, and the response unless
-- the deadline could not be set. `handling` are the goroutines in the wait group.
pub record Life (S : Type 0) : Type 0 where
  pub starting : Starting
  pub stopping : Stopping
  pub running : Bool
  pub listener : Option Bool
  pub loop : Loop
  pub handling : List Conn
  pub finished : List (ℕ × Option Response)
  pub next : ℕ
  pub crashed : Bool
  pub state : S

-- a server that `ServerFactory` made, and whose handlers are registered
unfoldable pub new_life : {S : Type 0} → S → Life S
new_life st = record {
  starting = not_started;
  stopping = not_stopped;
  running = false;
  listener = none;
  loop = no_loop;
  handling = [];
  finished = [];
  next = 0;
  crashed = false;
  state = st;
}

-- The mutex is free for others.
abbrev pub is_free : Stopping → Bool
is_free waiting = false
is_free _ = true

module _ {S : Type 0} (server : Server S) where
  -- `Start`: its first critical section, then `net.Listen`, with the loop's start if it succeeds
  pub data StartStep (s : Life S) : Life S → Type 0 where
    claims :
        s.starting ≡ not_started
        → is_free s.stopping ≡ true
        → s.running ≡ false
        → StartStep s (record s { starting = claimed; running = true })
    listens :
        s.starting ≡ claimed
        → StartStep s (record s { starting = listening; listener = some true; loop = accepting })
    cannot_listen :
        s.starting ≡ claimed → StartStep s (record s { starting = start_failed; running = false })

  -- `Stop`: closing a nil listener is a panic; then it waits for the goroutines of the wait group
  pub data StopStep (s : Life S) : Life S → Type 0 where
    refuses :
        s.stopping ≡ not_stopped
        → s.running ≡ false
        → StopStep s (record s { stopping = stop_refused })
    panics :
        s.stopping ≡ not_stopped
        → s.running ≡ true
        → s.listener ≡ none
        → StopStep s (record s { crashed = true })
    closes :
        (is_open : Bool)
        → s.stopping ≡ not_stopped
        → s.running ≡ true
        → s.listener ≡ some is_open
        → StopStep s (record s { stopping = waiting; running = false; listener = some false })
    returns : s.stopping ≡ waiting → s.handling ≡ [] → StopStep s (record s { stopping = returned })

  -- `acceptConnections`: `Accept` fails on a closed listener, and may fail on an open one
  pub data LoopStep (s : Life S) : Life S → Type 0 where
    accepts :
        (request : Parsed)
        → s.loop ≡ accepting
        → s.listener ≡ some true
        → LoopStep s (record s {
          loop = taken (record { number = s.next; request = request });
          next = s.next + 1;
        })
    fails : s.loop ≡ accepting → LoopStep s (record s { loop = accept_failed })
    goes_on :
        s.loop ≡ accept_failed
        → is_free s.stopping ≡ true
        → s.running ≡ true
        → LoopStep s (record s { loop = accepting })
    breaks :
        s.loop ≡ accept_failed
        → is_free s.stopping ≡ true
        → s.running ≡ false
        → LoopStep s (record s { loop = loop_ended })
    hands_over :
        (c : Conn)
        → s.loop ≡ taken c
        → LoopStep s (record s { loop = accepting; handling = c ∷ s.handling })

  -- the goroutine of a connection, any of those in the wait group
  pub data ConnStep (s : Life S) : Life S → Type 0 where
    answers :
        (before after : List Conn) (c : Conn) (st' : S) (r : Response)
        → s.handling ≡ before ++ c ∷ after
        → serve server c.request s.state ≡ some (st', r)
        → ConnStep s (record s {
          handling = before ++ after;
          finished = (c.number, some r) ∷ s.finished;
          state = st';
        })
    no_deadline :
        (before after : List Conn) (c : Conn)
        → s.handling ≡ before ++ c ∷ after
        → ConnStep s
            (record s { handling = before ++ after; finished = (c.number, none) ∷ s.finished })
    crashes :
        (before after : List Conn) (c : Conn)
        → s.handling ≡ before ++ c ∷ after
        → serve server c.request s.state ≡ none
        → ConnStep s (record s { crashed = true })

  -- a step of one of the goroutines, as long as the program has not crashed
  pub data Step (s : Life S) : Life S → Type 0 where
    of_start : {t : Life S} → s.crashed ≡ false → StartStep s t → Step s t
    of_stop : {t : Life S} → s.crashed ≡ false → StopStep s t → Step s t
    of_loop : {t : Life S} → s.crashed ≡ false → LoopStep s t → Step s t
    of_conn : {t : Life S} → s.crashed ≡ false → ConnStep s t → Step s t

  -- runs of `n` steps
  pub data Run (s : Life S) : ℕ → Life S → Type 0 where
    here : Run s 0 s
    and_then : {n : ℕ} {t u : Life S} → Run s n t → Step t u → Run s (n + 1) u
