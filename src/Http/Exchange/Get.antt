-- ===== src/Http/Exchange/Get.antt =====
-- A client's `Get` at the server of pkg/http.
use distributed_systems_go.Base.{ℕ, ◌^◌, ◌<◌, ◌≡◌, [], ◌∷◌, Text, text, ok}
use distributed_systems_go.Base.Int.{pos}
use distributed_systems_go.Base.Table.{insert}
use distributed_systems_go.Http.Message.{Request}
use distributed_systems_go.Http.Server.{Server, handle_connection}
use distributed_systems_go.Http.Client.Fields.{IsValue}
use distributed_systems_go.Http.Client.RoundTrip.{IsPath, parse_request-get}
use distributed_systems_go.Http.Url.{IsHost, parse_url-full}
use distributed_systems_go.Http.Exchange.{get}
use distributed_systems_go.Http.Exchange.Loop.{
  Host, IsSound, IsSendable, IsSameAnswer, link_to, url_of, send_to-answer, send_request-url,
}

-- what the server reads of a client's `Get`
abbrev pub asked : Text → Text → Request
asked host path = record {
  method = text "GET";
  path = path;
  version = text "HTTP/1.1";
  headers = insert (text "Connection") (text "close") (insert (text "Host") host []);
  body = [];
  content_type = [];
  content_len = pos 0;
}

-- A `Get` of a path on the server is answered by the handler for it, which changes the server's state
-- once, and the client gets the handler's code, status text and body, if the host and the path in
-- the URL are plain, the port fits an int, and the answer can be sent.
pub get-answer :
    {S : Type 0} (h : Host) (server : Server S) (host path : Text) (port : ℕ) (st : S)
    → IsSound h
    → IsHost host
    → IsValue host
    → IsPath (b'/' ∷ path)
    → port < 2 ^ 63
    → IsSendable (handle_connection server (ok (asked host (b'/' ∷ path))) st).1
    → ((get (link_to h server) (url_of host port path) st).0
        ≡ (handle_connection server (ok (asked host (b'/' ∷ path))) st).0)
      × IsSameAnswer
          (handle_connection server (ok (asked host (b'/' ∷ path))) st).1
          (get (link_to h server) (url_of host port path) st).1
unfolding get
get-answer h server host path port st sound hh hv hp small sendable =
    rw
      (send_request-url h (link_to h server) (text "GET") (url_of host port path) [] []
        (record { host = host; port = pos port; path = b'/' ∷ path }) st
        (parse_url-full host path port hh small))
      (send_to-answer h server (text "GET") [] []
        (record { host = host; port = pos port; path = b'/' ∷ path }) (asked host (b'/' ∷ path)) st
        sound (parse_request-get h.quote h.memory h.end host (b'/' ∷ path) hv hp) sendable)
