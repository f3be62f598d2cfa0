-- ===== src/Http/Exchange/Loop.antt =====
-- A client connected to the server of pkg/http.
use distributed_systems_go.Base.{
  ℕ, ◌^◌, ◌≤◌, ◌<◌, ◌≡◌, refl, [], ◌∷◌, ◌++◌, Option, none, some, length, Text, text, decimal,
  Result, ok, err, All,
}
use distributed_systems_go.Base.Int.{pos}
use distributed_systems_go.Base.Table.{Table, lookup, IsDistinct, insert}
use distributed_systems_go.Base.Table.Order.{IsReordering}
use distributed_systems_go.Http.Message.{Request, Response}
use distributed_systems_go.Http.Parse.{End, parsed, parse_request}
use distributed_systems_go.Http.Server.{Server, serve, handle_connection}
use distributed_systems_go.Http.Strings.Split.{Without}
use distributed_systems_go.Http.Client.{request_text}
use distributed_systems_go.Http.Client.Fields.{json-IsValue, IsValue}
use distributed_systems_go.Http.Client.RoundTrip.{IsPath, parse_request-post}
use distributed_systems_go.Http.Response.{sent_headers, write_response}
use distributed_systems_go.Http.Response.Head.{IsField}
use distributed_systems_go.Http.Response.RoundTrip.{IsFieldValue, parse_response-write}
use distributed_systems_go.Http.Url.{Url, parse_url, scheme, IsHost, parse_url-full}
use distributed_systems_go.Http.Exchange.{
  Delivery, not_read, received, Link, parse_delivery, send_to, send_request, post, post_json,
}

-- what surrounds the server: its memory, `strconv.Quote`, what ends the client's bytes, the order of
-- a `range` over headers, and the text of the time
pub record Host : Type 0 where
  pub memory : ℕ
  pub quote : Text → Text
  pub end : End
  pub visit : Table Text → Table Text
  pub date : Text

-- The surroundings in which responses arrive: every `range` visits all entries of its map once, and
-- the time's text is a header's value.
abbrev pub IsSound : Host → Type 0
IsSound h = ((t : Table Text) → IsReordering (h.visit t) t) × IsFieldValue h.date

-- A response that the client reads as it was.
abbrev pub IsSendable : Response → Type 0
IsSendable r =
    (n : ℕ) × (r.status_code ≡ pos n)
    × (n < 2 ^ 63)
    × Without b'\r' r.status_text
    × IsDistinct r.headers
    × All IsField r.headers

-- The same code, status text and body.
abbrev pub IsSameAnswer : Response → Result Response → Type 0
IsSameAnswer r (err e) = ⊥
IsSameAnswer r (ok r') =
    (r'.status_code ≡ r.status_code) × (r'.status_text ≡ r.status_text) × (r'.body ≡ r.body)

reply-IsSameAnswer :
    (h : Host) (r : Response)
    → IsSound h
    → IsSendable r
    → IsSameAnswer r (parse_delivery (received (write_response h.visit h.date r)))
unfolding parse_delivery
reply-IsSameAnswer h r sound (n, code, fits, reason, distinct, fields) =
    let (r', found, kept_code, kept_reason, kept_body, headers) =
      parse_response-write h.visit h.date n r (sound.0 (sent_headers h.date r.headers)) sound.1
        distinct fields code fits reason in
    rw (found, parse_delivery) (kept_code, kept_reason, kept_body)

-- the URL of a path on a server
abbrev pub url_of : Text → ℕ → Text → Text
url_of host port path = scheme ++ ((host ++ b':' ∷ decimal port) ++ b'/' ∷ path)

-- what the server reads of a client's `PostJSON`
abbrev pub posted : Text → Text → Text → Request
posted host path body = record {
  method = text "POST";
  path = path;
  version = text "HTTP/1.1";
  headers = insert (text "Connection") (text "close") (
      insert (text "Content-Type") (text "application/json")
        (insert (text "Content-Length") (decimal (length body)) (insert (text "Host") host [])));
  body = body;
  content_type = text "application/json";
  content_len = pos (length body);
}

module _ {S : Type 0} (h : Host) where
  -- the bytes that come back from the server, which closes the connection after its answer
  unfoldable pub reply : Option (S × Response) → S → S × Delivery
  reply none st = (st, not_read (text "connection reset by peer"))
  reply (some (st', r)) st = (st', received (write_response h.visit h.date r))

  -- a network that reaches the server
  unfoldable pub link_to : Server S → Link S
  link_to server = record {
    dial = λ address. ok tt;
    set_deadline = ok tt;
    deliver = λ bytes st. reply (serve server (parse_request h.memory h.quote h.end bytes) st) st;
  }

  -- A request that the server reads is answered by its handler, and the client gets that answer.
  pub send_to-answer :
      (server : Server S) (method body content_type : Text) (u : Url) (req : Request) (st : S)
      → IsSound h
      → parse_request h.memory h.quote h.end (request_text method u.host u.path body content_type)
        ≡ parsed req
      → IsSendable (handle_connection server (ok req) st).1
      → ((send_to (link_to server) method u body content_type st).0
          ≡ (handle_connection server (ok req) st).0)
        × IsSameAnswer
            (handle_connection server (ok req) st).1
            (send_to (link_to server) method u body content_type st).1
  unfolding send_to serve reply link_to lookup
  send_to-answer server method body content_type u req st sound read sendable =
      rw (read, serve)
        (refl, reply-IsSameAnswer h (handle_connection server (ok req) st).1 sound sendable)

  pub send_request-url :
      (link : Link S) (method url body content_type : Text) (u : Url) (st : S)
      → parse_url url ≡ ok u
      → send_request link method url body content_type st
        ≡ send_to link method u body content_type st
  unfolding send_request
  send_request-url link method url body content_type u st e = rw (e, send_request)

  -- A body that is posted as JSON to a path of the server is answered by the handler for it, which
  -- changes the server's state once, and the client gets the handler's code, status text and body.
  -- This holds if the host and the path in the URL are plain, the port fits an int, the body is
  -- not empty and fits into memory, the answer can be sent, and the server writes each header once
  -- and a plain date.
  pub post_json-answer :
      (server : Server S) (host path body : Text) (port : ℕ) (st : S)
      → IsSound h
      → IsHost host
      → IsValue host
      → IsPath (b'/' ∷ path)
      → port < 2 ^ 63
      → 0 < length body
      → length body < 2 ^ 63
      → length body ≤ h.memory
      → IsSendable (handle_connection server (ok (posted host (b'/' ∷ path) body)) st).1
      → ((post_json (link_to server) (url_of host port path) body st).0
          ≡ (handle_connection server (ok (posted host (b'/' ∷ path) body)) st).0)
        × IsSameAnswer
            (handle_connection server (ok (posted host (b'/' ∷ path) body)) st).1
            (post_json (link_to server) (url_of host port path) body st).1
  unfolding post_json post
  post_json-answer server host path body port st sound hh hv hp small full fits room sendable =
      rw
        (send_request-url (link_to server) (text "POST") (url_of host port path) body
          (text "application/json") (record { host = host; port = pos port; path = b'/' ∷ path }) st
          (parse_url-full host path port hh small))
        (send_to-answer server (text "POST") body (text "application/json")
          (record { host = host; port = pos port; path = b'/' ∷ path })
          (posted host (b'/' ∷ path) body) st sound
          (parse_request-post h.quote h.memory h.end host (b'/' ∷ path) body
            (text "application/json") hv hp json-IsValue full fits room)
          sendable)
