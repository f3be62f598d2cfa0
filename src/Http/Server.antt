-- ===== src/Http/Server.antt =====
-- pkg/http/server.go: the table of handlers, the choice of a handler for a request, and the
-- server's life cycle. A handler may use and change a state `S` of the program. Here every call
-- runs by itself; Http.Server.Accept has the accept loop and the goroutines.
pub mod Preserve
pub mod Session
pub mod Accept
pub mod Routing
pub mod Lifecycle
use distributed_systems_go.Base.{
  Bool, true, false, [], ◌∷◌, ◌++◌, Option, none, some, if◌then◌else◌, Text, text, decimal, Result,
  ok, err,
}
use distributed_systems_go.Base.Table.{Table, lookup, insert}
use distributed_systems_go.Base.Int.{ℤ, show_int}
use distributed_systems_go.Http.Parse.{Parsed, parsed, refused, crashed}
use distributed_systems_go.Http.Message.{
  Request, Response, new_response, set_body, plain_response, status_bad_request, status_not_found,
}

-- `RequestHandler`
abbrev pub RequestHandler : Type 0 → Type 0
RequestHandler S = Request → S → S × Response

-- `Server`; the listener is what `net.Listen` returned
pub record Server (S : Type 0) : Type 0 where
  pub host : Text
  pub port : ℤ
  pub handlers : Table (RequestHandler S)
  pub running : Bool

-- `method + " " + path`
unfoldable pub handler_key : Text → Text → Text
handler_key method path = method ++ (b' ' ∷ path)

-- the second lookup, `if !ok`
unfoldable pub or_else : {A : Type 0} → Option A → Option A → Option A
or_else (some a) other = some a
or_else none other = other

-- the wildcard path
abbrev pub wildcard : Text
wildcard = b'*' ∷ []

module _ {S : Type 0} where
  -- `ServerFactory`
  unfoldable pub server_factory : Text → ℤ → Server S
  server_factory host port = record { host = host; port = port; handlers = []; running = false }

  -- `RegisterHandler`
  unfoldable pub register_handler : Text → Text → RequestHandler S → Server S → Server S
  register_handler method path h s = record s {
    handlers = insert (handler_key method path) h s.handlers;
  }

  -- `Start`, on the result of `net.Listen`
  unfoldable pub start : Result (Unit {0}) → Server S → Server S × Result (Unit {0})
  start listen s = if s.running then (s, err (text "server already running")) else elim listen [
    | ok _ ↦ (record s { running = true }, ok tt)
    | err e ↦ (
      record s { running = false },
      err (
          text "error starting server on "
          ++ (s.host ++ (b':' ∷ (show_int s.port ++ (text ": " ++ e))))),
    )
  ]

  -- `Stop`, on the result of closing the listener
  unfoldable pub stop : Result (Unit {0}) → Server S → Server S × Result (Unit {0})
  stop close s =
      if s.running
      then (record s { running = false }, close)
      else (s, err (text "server not running"))

  -- the lookup of `handleConnection`: the exact key, then the method's wildcard
  unfoldable pub find_handler : Text → Text → Table (RequestHandler S) → Option (RequestHandler S)
  unfolding or_else
  find_handler method path handlers =
      or_else (lookup (handler_key method path) handlers)
        (lookup (handler_key method wildcard) handlers)

  -- the handler's response, or that of a request without one
  unfoldable pub respond : Option (RequestHandler S) → RequestHandler S
  respond (some h) req st = h req st
  respond none req st = (
    st,
    plain_response status_not_found (text "No handler for " ++ (req.method ++ (b' ' ∷ req.path))),
  )

  -- `handleConnection` from the parsed request to the response that it writes
  unfoldable pub handle_connection : Server S → Result Request → S → S × Response
  unfolding find_handler respond
  handle_connection s (err e) st =
      (st, plain_response status_bad_request (text "Bad request: " ++ e))
  handle_connection s (ok req) st = respond (find_handler req.method req.path s.handlers) req st

  -- `handleConnection` on what `ParseRequest` yields; `none` is the crash of the program
  unfoldable pub serve : Server S → Parsed → S → Option (S × Response)
  unfolding handle_connection
  serve s (parsed req) st = some (handle_connection s (ok req) st)
  serve s (refused e) st = some (handle_connection s (err e) st)
  serve s crashed st = none
