-- ===== src/Cmd/Server/Routes.antt =====
-- Which requests reach which handler of cmd/server.
use distributed_systems_go.Base.{
  ◌≡◌, ◌≢◌, refl, ◌∙◌, sym, ap, ap₂, ◌++◌, Option, none, some, List, Text, text, eq_text,
  eq_text_ne, ok,
}
use distributed_systems_go.Base.Int.{ℤ}
use distributed_systems_go.Base.Table.{lookup, insert}
use distributed_systems_go.Rpc.{TimestampPb}
use distributed_systems_go.Database.Service.{Service}
use distributed_systems_go.Http.Message.{Request, status_not_found, plain_response}
use distributed_systems_go.Http.Server.{
  RequestHandler, Server, server_factory, register_handler, handler_key, wildcard, find_handler,
  respond, handle_connection,
}
use distributed_systems_go.Cmd.Json.{Json}
use distributed_systems_go.Cmd.Server.{
  World, register_handlers, post_data, get_data, get_root, get_performance,
}

-- a request with that method and path
abbrev pub request_for : Text → Text → Request → Request
request_for method path req = record req { method = method; path = path }

module _ (pb : TimestampPb) (json : Json) (page host : Text) (port : ℤ)
    (w : World pb.Timestamp) where
  open pb use {Timestamp}

  -- the server that `main` starts
  abbrev pub the_server : Server (List Service)
  the_server = register_handlers pb json page w (server_factory host port)

  -- The handler found for the request's method and path answers it.
  dispatch :
      (req : Request) (nodes : List Service) {m p : Text}
      {o : Option (RequestHandler (List Service))}
      → req.method ≡ m
      → req.path ≡ p
      → find_handler m p the_server.handlers ≡ o
      → handle_connection the_server (ok req) nodes ≡ respond o req nodes
  unfolding handle_connection
  dispatch req nodes em ep found =
      ap (λ o. respond o req nodes)
        (ap₂ (λ m p. find_handler m p the_server.handlers) em ep ∙ found)

  reach :
      (req : Request) (nodes : List Service) {m p : Text} (h : RequestHandler (List Service))
      → find_handler m p the_server.handlers ≡ some h
      → (req.method ≡ m) × (req.path ≡ p)
      → handle_connection the_server (ok req) nodes ≡ h req nodes
  unfolding respond
  reach req nodes h found (em, ep) = dispatch req nodes em ep found

  find-routes :
      (find_handler (text "POST") (text "/data") the_server.handlers ≡ some (post_data pb json w))
      × (find_handler (text "GET") (text "/data") the_server.handlers ≡ some (get_data pb json w))
      × (find_handler (text "GET") (text "/") the_server.handlers ≡ some (get_root page))
      × (find_handler (text "GET") (text "/performance/2pc") the_server.handlers
          ≡ some (get_performance pb json w))
  unfolding find_handler register_handlers register_handler server_factory handler_key text eq_text
      lookup insert
  find-routes = (refl, refl, refl, refl)

  find-sensor :
      (id : Text)
      → id ≢ wildcard
      → find_handler (text "GET") (text "/data/" ++ id) the_server.handlers ≡ none
  unfolding find_handler register_handlers register_handler server_factory handler_key text eq_text
      lookup insert
  find-sensor id ne = rw (eq_text_ne wildcard id (λ e. ne (sym e)), find_handler)

  -- A request for one of the four exact routes, whatever else it holds, is answered by the route's
  -- handler.
  pub routes :
      (req : Request) (nodes : List Service)
      → (handle_connection the_server (ok (request_for (text "POST") (text "/data") req)) nodes
          ≡ post_data pb json w (request_for (text "POST") (text "/data") req) nodes)
        × (handle_connection the_server (ok (request_for (text "GET") (text "/data") req)) nodes
            ≡ get_data pb json w (request_for (text "GET") (text "/data") req) nodes)
        × (handle_connection the_server (ok (request_for (text "GET") (text "/") req)) nodes
            ≡ get_root page (request_for (text "GET") (text "/") req) nodes)
        × (handle_connection the_server
              (ok (request_for (text "GET") (text "/performance/2pc") req))
              nodes
            ≡ get_performance pb json w
                (request_for (text "GET") (text "/performance/2pc") req)
                nodes)
  routes req nodes =
      let (post, get, root, performance) = find-routes in
      (
        reach _ nodes _ post (refl, refl),
        reach _ nodes _ get (refl, refl),
        reach _ nodes _ root (refl, refl),
        reach _ nodes _ performance (refl, refl),
      )

  -- A request for the readings of one sensor, `GET /data/<id>`, is answered with status 404 for
  -- every id but `*`, and changes no database: the route `/data/*` is looked up as an exact path.
  pub sensor_not_found :
      (req : Request) (id : Text) (nodes : List Service)
      → req.method ≡ text "GET"
      → req.path ≡ text "/data/" ++ id
      → id ≢ wildcard
      → ((handle_connection the_server (ok req) nodes).0 ≡ nodes)
        × ((handle_connection the_server (ok req) nodes).1.status_code ≡ status_not_found)
  sensor_not_found req id nodes em ep ne =
      let e : handle_connection the_server (ok req) nodes ≡ respond none req nodes =
        dispatch req nodes em ep (find-sensor id ne) in
      rw e (unfold respond plain_response in (refl, refl))
