-- ===== src/Http/Client/RoundTrip.antt =====
-- The server's parser reads what the client writes.
use distributed_systems_go.Base.{
  ℕ, ◌^◌, ◌≤◌, ◌<◌, ◌≡◌, refl, ap, ◌∙◌, true, false, [], ◌∷◌, ◌++◌, arith, ltb, leb, length, Text,
  text, eq_text, eq_text_refl, decimal, ok,
}
use distributed_systems_go.Base.Table.{insert}
use distributed_systems_go.Base.Int.{pos, is_positive}
use distributed_systems_go.Http.Message.{Request}
use distributed_systems_go.Http.Strings.{split, to_lower}
use distributed_systems_go.Http.Strings.Trim.{IsTrimmed, EndsPlain}
use distributed_systems_go.Http.Strings.Split.{Without, Without-append, split-part, split-last}
use distributed_systems_go.Http.Strings.Number.{atoi-decimal}
use distributed_systems_go.Http.Parse.{
  End, parsed, first, special_header, read_body, read_headers, request_line, parse_request,
}
use distributed_systems_go.Http.Parse.Lines.{IsTrimmed-append, parse_request-line, read_headers-end}
use distributed_systems_go.Http.Client.Fields.{
  IsValue, host-IsKey, connection-IsKey, content_length-IsKey, content_type-IsKey, close-IsValue,
  decimal-IsValue, read_headers-field,
}
use distributed_systems_go.Http.Client.{body_fields, request_text}

-- The method of a request.
abbrev pub IsMethod : Text → Type 0
IsMethod t = IsTrimmed t × (Without b'\n' t × Without b' ' t)

-- A path that the request line carries.
abbrev pub IsPath : Text → Type 0
IsPath t = Without b'\n' t × Without b' ' t

pub post-IsMethod : IsMethod (text "POST")
unfolding text
post-IsMethod = ground arith

get-IsMethod : IsMethod (text "GET")
unfolding text
get-IsMethod = ground arith

version-EndsPlain : EndsPlain (b' ' ∷ text "HTTP/1.1")
unfolding text
version-EndsPlain = ground arith

version-Without : Without b'\n' (text "HTTP/1.1") × Without b' ' (text "HTTP/1.1")
unfolding text
version-Without = ground arith

-- the request before its headers
abbrev pub bare_request : Text → Text → Request
bare_request method path = record {
  method = method;
  path = path;
  version = text "HTTP/1.1";
  headers = [];
  body = [];
  content_type = [];
  content_len = pos 0;
}

first-length : (t : Text) → first (length t) t ≡ t
first-length [] = refl
first-length (c ∷ t) = ap (λ u. c ∷ u) (first-length t)

split-request_line :
    (method path : Text)
    → IsMethod method
    → IsPath path
    → split b' ' (method ++ (b' ' ∷ (path ++ (b' ' ∷ text "HTTP/1.1"))))
      ≡ method ∷ path ∷ text "HTTP/1.1" ∷ []
split-request_line method path hm hp =
    split-part b' ' method (path ++ (b' ' ∷ text "HTTP/1.1")) hm.1.1
    ∙ ap (λ ts. method ∷ ts)
        (split-part b' ' path (text "HTTP/1.1") hp.1
          ∙ ap (λ ts. path ∷ ts) (split-last b' ' (text "HTTP/1.1") version-Without.1))

module _ (quote : Text → Text) where
  special-host :
      (value : Text) (req : Request) → special_header quote (text "Host") value req ≡ ok req
  unfolding special_header to_lower eq_text text
  special-host value req = refl

  special-connection :
      (value : Text) (req : Request) → special_header quote (text "Connection") value req ≡ ok req
  unfolding special_header to_lower eq_text text
  special-connection value req = refl

  special-type :
      (value : Text) (req : Request)
      → special_header quote (text "Content-Type") value req
        ≡ ok (record req { content_type = value })
  unfolding special_header to_lower eq_text text
  special-type value req = refl

  pub special-length :
      (n : ℕ) (req : Request)
      → n < 2 ^ 63
      → special_header quote (text "Content-Length") (decimal n) req
        ≡ ok (record req { content_len = pos n })
  unfolding special_header to_lower eq_text text
  special-length n req fits = rw (atoi-decimal n fits)

  module _ (memory : ℕ) (end : End) where
    pub parse_request-start :
        (method path rest : Text)
        → IsMethod method
        → IsPath path
        → parse_request memory quote end
            ((method ++ (b' ' ∷ (path ++ (b' ' ∷ text "HTTP/1.1")))) ++ (b'\r' ∷ b'\n' ∷ rest))
          ≡ read_headers memory quote end [] (bare_request method path) rest
    unfolding request_line
    parse_request-start method path rest hm hp =
        parse_request-line memory quote end _ rest
          (IsTrimmed-append method (b' ' ∷ path) (b' ' ∷ text "HTTP/1.1") hm.0 version-EndsPlain)
          (Without-append b'\n' method _ hm.1.0 (
            (λ e. omega arith),
            Without-append b'\n' path (b' ' ∷ text "HTTP/1.1") hp.0
                ((λ e. omega arith), version-Without.0),
          ))
        ∙ ap (λ ts. request_line memory quote end ts rest) (split-request_line method path hm hp)

    read_body-none :
        (req : Request) (stream : Text)
        → is_positive req.content_len ≡ false
        → read_body memory quote end req stream ≡ parsed req
    unfolding read_body
    read_body-none req stream h = ground arith

    read_body-full :
        (req : Request) (body : Text)
        → req.method ≡ text "POST"
        → req.content_len ≡ pos (length body)
        → 0 < length body
        → length body ≤ memory
        → read_body memory quote end req body ≡ parsed (record req { body = body })
    unfolding read_body
    read_body-full req body post len some_body fits =
        let full : ltb 0 (length body) ≡ true = ground arith in
        let small : ltb memory (length body) ≡ false = ground arith in
        let enough : leb (length body) (length body) ≡ true = ground arith in
        rw (post, eq_text_refl (text "POST"), len, full, small, enough, first-length body) refl

    -- A `POST` that the client writes with a body, to a path without a blank or a line break, is
    -- read by the server as the same path and body, with exactly the client's headers, if the body
    -- is not empty, its length fits an int, and it fits into memory, and if the host and the
    -- content type hold no line break and begin and end with an ASCII byte that is no blank.
    pub parse_request-post :
        (host path body content_type : Text)
        → IsValue host
        → IsPath path
        → IsValue content_type
        → 0 < length body
        → length body < 2 ^ 63
        → length body ≤ memory
        → parse_request memory quote end (request_text (text "POST") host path body content_type)
          ≡ parsed (record {
            method = text "POST";
            path = path;
            version = text "HTTP/1.1";
            headers = insert (text "Connection") (text "close") (
                insert (text "Content-Type") content_type (
                  insert
                    (text "Content-Length")
                    (decimal (length body))
                    (insert (text "Host") host [])));
            body = body;
            content_type = content_type;
            content_len = pos (length body);
          })
    unfolding request_text body_fields
    parse_request-post host path [] content_type hh hp hc some_body fits small =
        absurd (omega arith)
    parse_request-post host path (c ∷ cs) content_type hh hp hc some_body fits small =
        parse_request-start (text "POST") path _ post-IsMethod hp
        ∙ (read_headers-field quote memory end (text "Host") host _ _ _ host-IsKey hh
              (special-host host _)
            ∙ (read_headers-field quote memory end (text "Content-Length") _ _ _ _
                  content_length-IsKey (decimal-IsValue (length (c ∷ cs)))
                  (special-length (length (c ∷ cs)) _ fits)
                ∙ (read_headers-field quote memory end (text "Content-Type") content_type _ _ _
                      content_type-IsKey hc (special-type content_type _)
                    ∙ (read_headers-field quote memory end (text "Connection") (text "close") _ _ _
                          connection-IsKey close-IsValue (special-connection (text "close") _)
                        ∙ (read_headers-end memory quote end (c ∷ cs) _
                            ∙ read_body-full _ (c ∷ cs) refl refl some_body small)))))

    -- A `GET` that the client writes is read by the server as the same path, with exactly the
    -- client's headers and no body.
    pub parse_request-get :
        (host path : Text)
        → IsValue host
        → IsPath path
        → parse_request memory quote end (request_text (text "GET") host path [] [])
          ≡ parsed (record {
            method = text "GET";
            path = path;
            version = text "HTTP/1.1";
            headers = insert (text "Connection") (text "close") (insert (text "Host") host []);
            body = [];
            content_type = [];
            content_len = pos 0;
          })
    unfolding request_text body_fields
    parse_request-get host path hh hp =
        parse_request-start (text "GET") path _ get-IsMethod hp
        ∙ (read_headers-field quote memory end (text "Host") host _ _ _ host-IsKey hh
              (special-host host _)
            ∙ (read_headers-field quote memory end (text "Connection") (text "close") _ _ _
                  connection-IsKey close-IsValue (special-connection (text "close") _)
                ∙ (read_headers-end memory quote end [] _ ∙ read_body-none _ [] refl)))
