-- ===== src/Http/Response.antt =====
-- pkg/http/response.go and client.go: the text of a response, and its parser. `range` visits the
-- headers in an order of its own, so the order is an argument.
pub mod Head
pub mod RoundTrip
use distributed_systems_go.Base.{
  Bool, true, false, List, [], ◌∷◌, ◌++◌, Option, none, some, if◌then◌else◌, Text, text, eq_text,
  Result, ok, err,
}
use distributed_systems_go.Base.Table.{Table, lookup, insert}
use distributed_systems_go.Base.Int.{pos, show_int}
use distributed_systems_go.Http.Message.{Request, Response}
use distributed_systems_go.Http.Strings.{trim_space, cut, to_lower}
use distributed_systems_go.Http.Strings.Search.{blank_line, cut_text, split_lines}
use distributed_systems_go.Http.Strings.Sscanf.{scan_int}
use distributed_systems_go.Http.Client.{field}

-- the header lines of a message, in front of the rest
unfoldable pub fields : Table Text → Text → Text
fields [] rest = rest
fields ((key, value) ∷ hs) rest = field key value (fields hs rest)

-- `"HTTP/1.1 %d %s"`
unfoldable pub status_line : Response → Text
status_line r = text "HTTP/1.1" ++ (b' ' ∷ (show_int r.status_code ++ (b' ' ∷ r.status_text)))

-- `Response.String`, on the headers in the order of their visit
unfoldable pub response_string : Table Text → Response → Text
response_string hs r = status_line r ++ (b'\r' ∷ b'\n' ∷ fields hs (b'\r' ∷ b'\n' ∷ r.body))

-- `Request.String`
unfoldable pub request_string : Table Text → Request → Text
request_string hs r =
    (r.method ++ (b' ' ∷ (r.path ++ (b' ' ∷ r.version))))
    ++ (b'\r' ∷ b'\n' ∷ fields hs (b'\r' ∷ b'\n' ∷ r.body))

-- a header that `Write` adds if it is not there
abbrev pub or_default : Text → Text → Option Text → Table Text → Table Text
or_default key value none hs = insert key value hs
or_default key value (some _) hs = hs

-- the headers that `Write` sends, with the text of the current time
unfoldable pub sent_headers : Text → Table Text → Table Text
sent_headers date hs =
    let named = or_default (text "Server") (text "IoT-Server/1.0") (lookup (text "Server") hs) hs in
    or_default (text "Date") date (lookup (text "Date") named) named

-- the bytes of `Response.Write`, for the order in which the headers are visited
unfoldable pub write_response : (Table Text → Table Text) → Text → Response → Text
write_response visit date r = response_string (visit (sent_headers date r.headers)) r

-- the headers that the response keeps in fields of its own
unfoldable pub special_field : Text → Text → Response → Response
special_field key value r =
    if eq_text (to_lower key) (text "content-type")
    then record r { content_type = value }
    else if eq_text (to_lower key) (text "content-length")
    then elim (scan_int value) [ none ↦ r | some n ↦ record r { content_length = n } ]
    else r

-- one header line; a line without a colon is skipped
unfoldable pub field_line : Option (Text × Text) → Response → Response
field_line none r = r
field_line (some (before, after)) r =
    let key = trim_space before in
    let value = trim_space after in
    special_field key value (record r { headers = insert key value r.headers })

-- the loop over the header lines
unfoldable pub field_lines : List Text → Response → Response
field_lines [] r = r
field_lines (l ∷ ls) r = field_lines ls (field_line (cut b':' l) r)

-- the second and the third part of `SplitN(line, " ", 3)`
unfoldable pub status_parts : Text → Option (Text × Text)
status_parts line = elim (cut b' ' line) [ none ↦ none | some (version, rest) ↦ cut b' ' rest ]

-- the status line and the other lines of the head
unfoldable pub parse_head : List Text → Text → Result Response
parse_head [] body = err (text "invalid response headers")
parse_head (line ∷ lines) body = elim (status_parts line) [
  | none ↦ err (text "invalid status line: " ++ line)
  | some (code, reason) ↦ elim (scan_int code) [
    | none ↦ err (text "invalid status code: " ++ code)
    | some n ↦ ok (
        field_lines lines (record {
          status_code = n;
          status_text = reason;
          headers = [];
          body = body;
          content_type = [];
          content_length = pos 0;
        }))
  ]
]

-- `parseResponse`
unfoldable pub parse_response : Text → Result Response
parse_response raw = elim (cut_text blank_line raw) [
  | none ↦ err (text "invalid response format")
  | some (head, body) ↦ parse_head (split_lines head) body
]
