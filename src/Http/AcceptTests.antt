-- ===== src/Http/AcceptTests.antt =====
-- A server that accepts one connection, and is stopped.
use distributed_systems_go.Base.{
  ℕ, ◌+◌, ◌≤◌, ◌≡◌, ◌⊎◌, refl, [], ◌∷◌, text, eq_text, some, true, false,
}
use distributed_systems_go.Base.Int.{pos}
use distributed_systems_go.Base.Table.{lookup, insert}
use distributed_systems_go.Http.Message.{Request, status_ok, plain_response}
use distributed_systems_go.Http.Parse.{parsed}
use distributed_systems_go.Http.Server.{
  RequestHandler, Server, server_factory, handler_key, register_handler, find_handler, respond,
  serve, handle_connection,
}
use distributed_systems_go.Http.Server.Accept.{
  Life, Run, new_life, here, and_then, of_start, of_stop, of_loop, of_conn, claims, listens, closes,
  accepts, hands_over, answers, returns, listening, accepting, waiting, returned,
}
use distributed_systems_go.Http.Server.Accept.Places.{IsOnce}
use distributed_systems_go.Http.Server.Accept.Invariant.{IsShut, new_life-IsShut}
use distributed_systems_go.Http.Server.Accept.Ends.{steps_left, IsOver, Moves, Run-IsOver}
use distributed_systems_go.Http.Server.Accept.Races.{stop-late}

-- counts its requests
abbrev counter : RequestHandler ℕ
counter req n = (n + 1, plain_response status_ok req.path)

abbrev root_server : Server ℕ
root_server = register_handler (text "GET") (text "/") counter (server_factory [] (pos 8080))

abbrev request : Request
request = record {
  method = text "GET";
  path = text "/";
  version = text "HTTP/1.1";
  headers = [];
  body = [];
  content_type = [];
  content_len = pos 0;
}

answer : serve root_server (parsed request) 3 ≡ some (4, plain_response status_ok (text "/"))
unfolding serve handle_connection find_handler respond register_handler server_factory handler_key
    text eq_text lookup insert
answer = refl

-- `Stop` has closed the listener, and the connection is being handled.
abbrev busy : Life ℕ
busy = record {
  starting = listening;
  stopping = waiting;
  running = false;
  listener = some false;
  loop = accepting;
  handling = record { number = 0; request = parsed request } ∷ [];
  finished = [];
  next = 1;
  crashed = false;
  state = 3;
}

busy-Run : Run root_server (new_life 3) 5 busy
unfolding new_life
busy-Run =
    and_then
      (and_then
        (and_then
          (and_then (and_then here (of_start refl (claims refl refl refl)))
            (of_start refl (listens refl)))
          (of_loop refl (accepts (parsed request) refl refl)))
        (of_loop refl (hands_over (record { number = 0; request = parsed request }) refl)))
      (of_stop refl (closes true refl refl refl))

-- The request is answered, and `Stop` returns.
abbrev over : Life ℕ
over = record busy {
  stopping = returned;
  handling = [];
  finished = (0, some (plain_response status_ok (text "/"))) ∷ [];
  state = 4;
}

over-Run : Run root_server busy 2 over
over-Run =
    and_then
      (and_then here (
        of_conn refl (
          answers [] [] (record { number = 0; request = parsed request }) 4
            (plain_response status_ok (text "/")) refl answer)))
      (of_stop refl (returns refl refl))

new_life-IsShut_example : IsOnce busy × IsShut busy.stopping busy
new_life-IsShut_example = new_life-IsShut root_server 3 5 busy busy-Run

Run-IsOver_example :
    (2 + steps_left over ≤ steps_left busy) × (IsOver root_server over ⊎ Moves root_server over)
Run-IsOver_example = Run-IsOver root_server 3 5 2 busy over busy-Run refl over-Run

stop-late_example :
    (s : Life ℕ) × (t : Life ℕ) × Run root_server (new_life 3) 5 s
    × (s.stopping ≡ returned)
    × (s.handling ≡ [])
    × (s.state ≡ 3)
    × Run root_server s 2 t
    × (t.state ≡ 4)
    × (t.finished ≡ (0, some (plain_response status_ok (text "/"))) ∷ [])
stop-late_example =
    stop-late root_server 3 (parsed request) 4 (plain_response status_ok (text "/")) answer
