-- ===== src/Http/ExchangeTests.antt =====
-- URLs, responses and a whole exchange with a server.
use distributed_systems_go.Base.{ℕ, ◌+◌, ◌≡◌, refl, [], ◌∷◌, arith, Text, text, eq_text, ok}
use distributed_systems_go.Base.Int.{pos}
use distributed_systems_go.Base.Table.{lookup, insert}
use distributed_systems_go.Base.Table.Order.{IsReordering-refl}
use distributed_systems_go.Http.Fixtures.{host, host-IsSound}
use distributed_systems_go.Http.Message.{Request, Response, status_texts, plain_response}
use distributed_systems_go.Http.Server.{
  Server, server_factory, handler_key, register_handler, find_handler, handle_connection,
}
use distributed_systems_go.Http.Response.{sent_headers, write_response, parse_response}
use distributed_systems_go.Http.Response.RoundTrip.{parse_response-write}
use distributed_systems_go.Http.Exchange.{post_json}
use distributed_systems_go.Http.Exchange.Loop.{
  IsSameAnswer, url_of, posted, link_to, post_json-answer,
}
use distributed_systems_go.Http.Exchange.Answers.{plain_response-IsSendable}

abbrev made : Response
made = record {
  status_code = pos 201;
  status_text = text "Created";
  headers = (text "Allow", text "GET") ∷ [];
  body = text "saved";
  content_type = text "text/plain";
  content_length = pos 5;
}

parse_response-write_example :
    (r' : Response) × (parse_response (write_response (λ t. t) (text "now") made) ≡ ok r')
    × (r'.status_code ≡ made.status_code)
    × (r'.status_text ≡ made.status_text)
    × (r'.body ≡ made.body)
    × ((key : Text) → lookup key r'.headers ≡ lookup key (sent_headers (text "now") made.headers))
unfolding text lookup
parse_response-write_example =
    parse_response-write (λ t. t) (text "now") 201 made
      (IsReordering-refl (sent_headers (text "now") made.headers)) (ground arith) (refl, tt)
      (ground arith, tt) refl (omega arith) (ground arith)

-- a handler that counts the requests and returns their bodies
abbrev echo : Request → ℕ → ℕ × Response
echo req n = (n + 1, plain_response (pos 200) req.body)

abbrev echo_server : Server ℕ
echo_server = register_handler (text "POST") (text "/echo") echo (server_factory [] (pos 8080))

echo_answer :
    handle_connection echo_server (ok (posted (text "localhost") (text "/echo") (text "hi"))) 3
    ≡ (4, plain_response (pos 200) (text "hi"))
unfolding handle_connection find_handler register_handler server_factory handler_key text eq_text
    lookup insert
echo_answer = refl

echo_path : text "/echo" ≡ b'/' ∷ text "echo"
unfolding text
echo_path = refl

status_texts-ok : status_texts (pos 200) ≡ b'O' ∷ b'K' ∷ []
unfolding status_texts text
status_texts-ok = refl

post_json-answer_example :
    let st =
      handle_connection echo_server
        (ok (posted (text "localhost") (b'/' ∷ text "echo") (text "hi")))
        3 in
    ((post_json
        (link_to host echo_server)
        (url_of (text "localhost") 8080 (text "echo"))
        (text "hi")
        3).0
      ≡ st.0)
    × IsSameAnswer st.1
        (post_json
          (link_to host echo_server)
          (url_of (text "localhost") 8080 (text "echo"))
          (text "hi")
          3).1
unfolding text
post_json-answer_example =
    post_json-answer host echo_server (text "localhost") (text "echo") (text "hi") 8080 3
      host-IsSound (ground arith, ground arith) (ground arith) (ground arith) (omega arith)
      (omega arith) (omega arith) (omega arith)
      (rw echo_answer (
        plain_response-IsSendable 200 (text "hi") (omega arith)
          (rw status_texts-ok (ground arith))))
