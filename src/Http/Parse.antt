-- ===== src/Http/Parse.antt =====
-- pkg/http/request.go, `ParseRequest`: the request in the bytes that a connection delivers.
pub mod Lines
pub mod Limit
pub mod Body
use distributed_systems_go.Base.{
  ℕ, zero, suc, Bool, true, false, List, [], ◌∷◌, ◌++◌, Option, none, some, if◌then◌else◌, ltb, leb,
  ◌==◌, length, drop, Text, text, is_empty, eq_text, Result, ok, err, ◌&&◌,
}
use distributed_systems_go.Base.Table.{insert}
use distributed_systems_go.Base.Int.{ℤ, pos, negsuc, is_positive}
use distributed_systems_go.Http.Message.{Request}
use distributed_systems_go.Http.Strings.{trim_space, split, cut, to_lower, atoi}

-- what ends the bytes of a connection: its other side closes it, or an error such as a time-out
pub data End : Type 0 where
  eof : End
  broken : Text → End

abbrev pub end_error : End → Text
end_error eof = text "EOF"
end_error (broken e) = e

-- what `io.ReadFull` returns when some bytes are missing
abbrev pub short_error : Text → End → Text
short_error [] eof = text "EOF"
short_error (_ ∷ _) eof = text "unexpected EOF"
short_error _ (broken e) = e

-- the result, or the crash of the program when `make` is asked for more than the memory
pub data Parsed : Type 0 where
  parsed : Request → Parsed
  refused : Text → Parsed
  crashed : Parsed

-- the first `n` bytes
abbrev pub first : ℕ → Text → Text
first zero t = []
first (suc n) [] = []
first (suc n) (c ∷ t) = c ∷ first n t

-- `ReadString('\n')`, with the line so far
unfoldable pub read_string : Text → Text → Option (Text × Text)
read_string line [] = none
read_string line (c ∷ rest) = elim (c == b'\n') [
  | true ↦ some (line ++ c ∷ [], rest)
  | false ↦ read_string (line ++ c ∷ []) rest
]

-- the headers that the request keeps in fields of its own
unfoldable pub special_header : (Text → Text) → Text → Text → Request → Result Request
special_header quote key value req =
    if eq_text (to_lower key) (text "content-type")
    then ok (record req { content_type = value })
    else if eq_text (to_lower key) (text "content-length")
    then elim (atoi value) [
      | none ↦ err (
          text "invalid Content-Length: strconv.Atoi: parsing "
          ++ (quote value ++ text ": invalid syntax"))
      | some none ↦ err (
          text "invalid Content-Length: strconv.Atoi: parsing "
          ++ (quote value ++ text ": value out of range"))
      | some (some n) ↦ ok (record req { content_len = n })
    ]
    else ok req

-- one header line, trimmed
unfoldable pub header_line : (Text → Text) → Option (Text × Text) → Request → Result Request
header_line quote none req = err (text "invalid header format")
header_line quote (some (before, after)) req =
    let key = trim_space before in
    let value = trim_space after in
    special_header quote key value (record req { headers = insert key value req.headers })

abbrev pub length_of : ℤ → ℕ
length_of (pos n) = n
length_of (negsuc n) = 0

module _ (memory : ℕ) (quote : Text → Text) (end : End) where
  -- the body, if the method is POST and there is a length
  unfoldable pub read_body : Request → Text → Parsed
  read_body req stream =
      let n = length_of req.content_len in
      if eq_text req.method (text "POST") && is_positive req.content_len
      then if ltb memory n
        then crashed
        else if leb n (length stream)
        then parsed (record req { body = first n stream })
        else refused (text "error reading request body: " ++ short_error stream end)
      else parsed req

  -- `ReadBodyFrom`
  unfoldable pub read_body_from : Request → Text → Parsed
  read_body_from req stream =
      let n = length_of req.content_len in
      if is_positive req.content_len
      then if ltb memory n
        then crashed
        else if leb n (length stream)
        then parsed (record req { body = first n stream })
        else refused (text "error reading request body: " ++ short_error stream end)
      else parsed req

  -- the loop over the headers, with the line so far
  unfoldable pub read_headers : Text → Request → Text → Parsed
  read_headers line req [] = refused (text "error reading header: " ++ end_error end)
  read_headers line req (c ∷ rest) = elim (c == b'\n') [
    | false ↦ read_headers (line ++ c ∷ []) req rest
    | true ↦
        let trimmed = trim_space (line ++ c ∷ []) in
        elim (is_empty trimmed) [
          | true ↦ read_body req rest
          | false ↦ elim (header_line quote (cut b':' trimmed) req) [
            | ok req' ↦ read_headers [] req' rest
            | err e ↦ refused e
          ]
        ]
  ]

  -- the request line, split
  unfoldable pub request_line : List Text → Text → Parsed
  request_line (method ∷ path ∷ version ∷ []) rest =
      read_headers []
        (record {
          method = method;
          path = path;
          version = version;
          headers = [];
          body = [];
          content_type = [];
          content_len = pos 0;
        })
        rest
  request_line _ rest = refused (text "invalid request line format")

  -- `ParseRequest`
  unfoldable pub parse_request : Text → Parsed
  parse_request stream = elim (read_string [] stream) [
    | none ↦ refused (text "error reading request line: " ++ end_error end)
    | some (line, rest) ↦ request_line (split b' ' (trim_space line)) rest
  ]
