-- ===== src/Http/Server/Preserve.antt =====
-- What every handler of a server keeps, the server keeps.
use distributed_systems_go.Base.{◌≡◌, refl, [], Option, none, some, Text, Result, ok, err, All}
use distributed_systems_go.Base.Table.{lookup, lookup-All, insert-All}
use distributed_systems_go.Http.Message.{Request}
use distributed_systems_go.Http.Server.{
  RequestHandler, Server, handler_key, wildcard, or_else, register_handler, find_handler, respond,
  handle_connection,
}

module _ {S : Type 0} (P : S → Type 0) where
  -- The handler of a route keeps `P`.
  abbrev pub Keeps : Text × RequestHandler S → Type 0
  Keeps (key, h) = (req : Request) (st : S) → P st → P (h req st).0

  pub register_handler-Keeps :
      (method path : Text) (h : RequestHandler S) (s : Server S)
      → All Keeps s.handlers
      → Keeps (handler_key method path, h)
      → All Keeps (register_handler method path h s).handlers
  unfolding register_handler
  register_handler-Keeps method path h s all keeps =
      insert-All Keeps (handler_key method path) h s.handlers keeps all

  -- Whatever is found keeps `P`.
  abbrev Finds : Option (RequestHandler S) → Type 0
  Finds o = (h : RequestHandler S) → o ≡ some h → Keeps ([], h)

  respond-Keeps :
      (o : Option (RequestHandler S)) (req : Request) (st : S)
      → Finds o
      → P st
      → P (respond o req st).0
  unfolding respond
  respond-Keeps none req st keeps p = p
  respond-Keeps (some h) req st keeps p = keeps h refl req st p

  or_else-Finds : (a b : Option (RequestHandler S)) → Finds a → Finds b → Finds (or_else a b)
  unfolding or_else
  or_else-Finds (some g) b finds other = finds
  or_else-Finds none b finds other = other

  -- Whatever a request is, answering it keeps what every registered handler keeps.
  pub handle_connection-Keeps :
      (s : Server S) (r : Result Request) (st : S)
      → All Keeps s.handlers
      → P st
      → P (handle_connection s r st).0
  unfolding handle_connection find_handler
  handle_connection-Keeps s (err e) st all p = p
  handle_connection-Keeps s (ok req) st all p =
      respond-Keeps _ req st
        (or_else-Finds (lookup (handler_key req.method req.path) s.handlers)
          (lookup (handler_key req.method wildcard) s.handlers)
          (λ h found. lookup-All Keeps (handler_key req.method req.path) s.handlers all found)
          (λ h found. lookup-All Keeps (handler_key req.method wildcard) s.handlers all found))
        p
