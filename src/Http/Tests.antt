-- ===== src/Http/Tests.antt =====
-- Requests on the wire and at the table of handlers, and the life of a server.
use distributed_systems_go.Base.{
  ℕ, ◌+◌, ◌≡◌, refl, [], ◌∷◌, ◌++◌, Text, text, eq_text, arith, ok, some, none, decimal,
}
use distributed_systems_go.Base.Int.{pos, negsuc}
use distributed_systems_go.Base.Table.{lookup, insert}
use distributed_systems_go.Http.Message.{Request, status_ok, plain_response}
use distributed_systems_go.Http.Strings.{
  atoi, scan, trim_space, trim_left, trim_right, all_spaces, is_space, is_space2, is_space3,
}
use distributed_systems_go.Http.Parse.{eof, parsed, crashed, parse_request}
use distributed_systems_go.Http.Parse.Limit.{announced, huge_length}
use distributed_systems_go.Http.Client.{request_text}
use distributed_systems_go.Http.Client.Fields.{json-IsValue, IsValue}
use distributed_systems_go.Http.Client.RoundTrip.{IsPath, parse_request-post}
use distributed_systems_go.Http.Server.{
  RequestHandler, Server, server_factory, handler_key, register_handler, find_handler,
  handle_connection,
}
use distributed_systems_go.Http.Server.Routing.{IsToken}

abbrev get_request : Text → Request
get_request path = record {
  method = text "GET";
  path = path;
  version = text "HTTP/1.1";
  headers = [];
  body = [];
  content_type = [];
  content_len = pos 0;
}

-- counts its requests
abbrev counter : RequestHandler ℕ
counter req n = (n + 1, plain_response status_ok req.path)

abbrev root_server : Server ℕ
root_server = register_handler (text "GET") (text "/") counter (server_factory [] (pos 8080))

get_IsToken : IsToken (text "GET")
unfolding text
get_IsToken = (λ e. omega arith, (λ e. omega arith, (λ e. omega arith, tt)))

-- A route that nobody registered, under a method without a wildcard.
handle_connection-missing : (handle_connection root_server (ok (get_request (text "/x"))) 3).0 ≡ 3
unfolding handle_connection find_handler register_handler server_factory handler_key text eq_text
    lookup insert
handle_connection-missing = refl

abbrev quoted : Text → Text
quoted t = b'"' ∷ (t ++ b'"' ∷ [])

local-IsValue : IsValue (text "localhost")
unfolding text
local-IsValue = ground arith

data-IsPath : IsPath (text "/data")
unfolding text
data-IsPath = ground arith

parse_request-post_example :
    parse_request 1000 quoted eof (
      request_text
        (text "POST")
        (text "localhost")
        (text "/data")
        (1 ∷ 10 ∷ 2 ∷ [])
        (text "application/json"))
    ≡ parsed (record {
      method = text "POST";
      path = text "/data";
      version = text "HTTP/1.1";
      headers = insert (text "Connection") (text "close") (
          insert (text "Content-Type") (text "application/json") (
            insert
              (text "Content-Length")
              (decimal 3)
              (insert (text "Host") (text "localhost") [])));
      body = 1 ∷ 10 ∷ 2 ∷ [];
      content_type = text "application/json";
      content_len = pos 3;
    })
parse_request-post_example =
    parse_request-post quoted 1000 eof (text "localhost") (text "/data") (1 ∷ 10 ∷ 2 ∷ [])
      (text "application/json") local-IsValue data-IsPath json-IsValue (omega arith) (omega arith)
      (omega arith)

huge_length_example :
    parse_request 1000 quoted eof (announced (text "/data") 1_000_000 []) ≡ crashed
huge_length_example =
    huge_length 1000 quoted eof (text "/data") 1_000_000 [] data-IsPath (omega arith) (omega arith)

-- Numbers that `Atoi` takes, and two that it refuses.
atoi-signed : atoi (text "-12") ≡ some (some (negsuc 11))
unfolding atoi scan text
atoi-signed = refl

atoi-letter : atoi (text "1x") ≡ none
unfolding atoi scan text
atoi-letter = refl

atoi-large : atoi (text "9223372036854775808") ≡ some none
unfolding atoi scan text
atoi-large = refl

-- White space of Unicode is trimmed as well: a no-break space and an ideographic space.
trim_space-unicode :
    trim_space (0xC2 ∷ 0xA0 ∷ 65 ∷ 32 ∷ 66 ∷ 0xE3 ∷ 0x80 ∷ 0x80 ∷ 10 ∷ []) ≡ 65 ∷ 32 ∷ 66 ∷ []
unfolding trim_space trim_left trim_right all_spaces is_space is_space2 is_space3
trim_space-unicode = refl
