-- ===== src/Cmd/Server/Wire.antt =====
-- The way of a request from the client's bytes to a handler of cmd/server.
use distributed_systems_go.Base.{
  ℕ, ◌^◌, ◌≤◌, ◌<◌, ◌≡◌, ap, ◌∙◌, [], some, List, Text, text, decimal, length, arith,
}
use distributed_systems_go.Base.Int.{ℤ, pos}
use distributed_systems_go.Base.Table.{insert}
use distributed_systems_go.Rpc.{TimestampPb}
use distributed_systems_go.Database.Service.{Service}
use distributed_systems_go.Http.Message.{Request}
use distributed_systems_go.Http.Parse.{End, parse_request}
use distributed_systems_go.Http.Client.{request_text}
use distributed_systems_go.Http.Client.Fields.{json-IsValue, IsValue}
use distributed_systems_go.Http.Client.RoundTrip.{IsPath, parse_request-post, parse_request-get}
use distributed_systems_go.Http.Server.{serve}
use distributed_systems_go.Cmd.Json.{Json}
use distributed_systems_go.Cmd.Server.{World, post_data, get_data}
use distributed_systems_go.Cmd.Server.Routes.{the_server, routes}

-- what the server reads of a client's `PostJSON` to `/data`
abbrev pub posted : Text → Text → Request
posted host body = record {
  method = text "POST";
  path = text "/data";
  version = text "HTTP/1.1";
  headers = insert (text "Connection") (text "close") (
      insert (text "Content-Type") (text "application/json")
        (insert (text "Content-Length") (decimal (length body)) (insert (text "Host") host [])));
  body = body;
  content_type = text "application/json";
  content_len = pos (length body);
}

-- what the server reads of a client's `Get` of `/data`
abbrev pub asked : Text → Request
asked host = record {
  method = text "GET";
  path = text "/data";
  version = text "HTTP/1.1";
  headers = insert (text "Connection") (text "close") (insert (text "Host") host []);
  body = [];
  content_type = [];
  content_len = pos 0;
}

data-IsPath : IsPath (text "/data")
unfolding text
data-IsPath = ground arith

module _ (pb : TimestampPb) (json : Json) (page address : Text) (port : ℤ) (w : World pb.Timestamp)
    (memory : ℕ) (quote : Text → Text) (end : End) where
  open pb use {Timestamp}

  -- The bytes that a client writes to post a body that fits into memory reach the handler of
  -- `POST /data` with that body.
  pub wire-post_data :
      (host body : Text) (nodes : List Service)
      → IsValue host
      → 0 < length body
      → length body < 2 ^ 63
      → length body ≤ memory
      → serve
          (the_server pb json page address port w)
          (parse_request memory quote end
            (request_text (text "POST") host (text "/data") body (text "application/json")))
          nodes
        ≡ some (post_data pb json w (posted host body) nodes)
  unfolding serve
  wire-post_data host body nodes hh full fits small =
      ap (λ r. serve (the_server pb json page address port w) r nodes)
        (parse_request-post quote memory end host (text "/data") body (text "application/json") hh
          data-IsPath json-IsValue full fits small)
      ∙ ap some (routes pb json page address port w (posted host body) nodes).0

  -- The bytes that a client writes to get `/data` reach the handler of `GET /data`.
  pub wire-get_data :
      (host : Text) (nodes : List Service)
      → IsValue host
      → serve
          (the_server pb json page address port w)
          (parse_request memory quote end (request_text (text "GET") host (text "/data") [] []))
          nodes
        ≡ some (get_data pb json w (asked host) nodes)
  unfolding serve
  wire-get_data host nodes hh =
      ap (λ r. serve (the_server pb json page address port w) r nodes)
        (parse_request-get quote memory end host (text "/data") hh data-IsPath)
      ∙ ap some (routes pb json page address port w (asked host) nodes).1
