-- ===== src/Http/Response/Head.antt =====
-- The client's parser on the head of a response.
use distributed_systems_go.Base.{
  ℕ, ◌^◌, ◌<◌, ◌≡◌, refl, sym, ap, ◌∙◌, List, [], ◌∷◌, ◌++◌, map, append_assoc, some, arith, Text,
  text, decimal, ok, All,
}
use distributed_systems_go.Base.Int.{pos}
use distributed_systems_go.Base.Table.{Table, insert}
use distributed_systems_go.Base.Table.Order.{insert_all}
use distributed_systems_go.Http.Message.{Response}
use distributed_systems_go.Http.Strings.{cut}
use distributed_systems_go.Http.Strings.Trim.{IsTrimmed, trim_space-blank}
use distributed_systems_go.Http.Strings.Split.{Without, Without-append, cut-part}
use distributed_systems_go.Http.Strings.Number.{Without-decimal}
use distributed_systems_go.Http.Strings.Sscanf.{scan_int-decimal}
use distributed_systems_go.Http.Strings.Search.{blank_line, join_lines, IsLine, AreLines}
use distributed_systems_go.Http.Parse.Lines.{trim_space-trimmed}
use distributed_systems_go.Http.Client.{field}
use distributed_systems_go.Http.Response.{
  fields, special_field, field_line, field_lines, status_parts, parse_head,
}

-- A header that a response carries unchanged.
abbrev pub IsField : Text × Text → Type 0
IsField (k, v) =
    (IsTrimmed k × (Without b':' k × Without b'\r' k)) × (IsTrimmed v × Without b'\r' v)

-- the line of a header, without its end
abbrev pub line_of : Text × Text → Text
line_of (k, v) = k ++ (b':' ∷ b' ' ∷ v)

line_of-IsLine : (h : Text × Text) → IsField h → IsLine (line_of h)
line_of-IsLine ([], v) h = absurd h.0.0
line_of-IsLine (c ∷ k, v) h =
    Without-append b'\r' (c ∷ k) (b':' ∷ b' ' ∷ v) h.0.1.1
      ((λ e. omega arith), ((λ e. omega arith), h.1.1))

pub lines-AreLines : (hs : Table Text) → All IsField hs → AreLines (map line_of hs)
lines-AreLines [] h = tt
lines-AreLines (x ∷ hs) h = (line_of-IsLine x h.0, lines-AreLines hs h.1)

-- A written head is its joined lines.
pub join_lines-fields :
    (l : Text) (hs : Table Text) (body : Text)
    → l ++ (b'\r' ∷ b'\n' ∷ fields hs (b'\r' ∷ b'\n' ∷ body))
      ≡ join_lines l (map line_of hs) ++ (blank_line ++ body)
unfolding fields field
join_lines-fields l [] body = refl
join_lines-fields l ((k, v) ∷ hs) body =
    ap (λ t. l ++ (b'\r' ∷ b'\n' ∷ t))
      (sym (append_assoc k (b':' ∷ b' ' ∷ v) (b'\r' ∷ b'\n' ∷ fields hs (b'\r' ∷ b'\n' ∷ body)))
        ∙ join_lines-fields (line_of (k, v)) hs body)
    ∙ sym (
        append_assoc l (b'\r' ∷ b'\n' ∷ join_lines (line_of (k, v)) (map line_of hs))
          (blank_line ++ body))

-- A response with these headers, and the code, text and body of another.
abbrev pub Carries : Table Text → Response → Response → Type 0
Carries hs r r' =
    (r'.headers ≡ hs)
    × (r'.status_code ≡ r.status_code)
    × (r'.status_text ≡ r.status_text)
    × (r'.body ≡ r.body)

special_field-Carries : (k v : Text) (r : Response) → Carries r.headers r (special_field k v r)
unfolding special_field
special_field-Carries k v r = ground arith

field_line-field :
    (k v : Text) (r : Response)
    → IsField (k, v)
    → field_line (cut b':' (line_of (k, v))) r
      ≡ special_field k v (record r { headers = insert k v r.headers })
unfolding field_line
field_line-field k v r h =
    rw (cut-part b':' k (b' ' ∷ v) h.0.1.0, trim_space-trimmed k h.0.0, trim_space-blank v h.1.0)

pub field_lines-Carries :
    (hs : Table Text) (r : Response)
    → All IsField hs
    → Carries (insert_all hs r.headers) r (field_lines (map line_of hs) r)
unfolding field_lines
field_lines-Carries [] r h = (refl, refl, refl, refl)
field_lines-Carries ((k, v) ∷ hs) r h =
    let r1 : Response = field_line (cut b':' (line_of (k, v))) r in
    let (headers, code, reason, body) =
      special_field-Carries k v (record r { headers = insert k v r.headers }) in
    let e : r1 ≡ special_field k v (record r { headers = insert k v r.headers }) =
      field_line-field k v r h.0 in
    let (headers', code', reason', body') = field_lines-Carries hs r1 h.1 in
    (
      headers' ∙ ap (insert_all hs) (ap (λ (x : Response). x.headers) e ∙ headers),
      code' ∙ (ap (λ (x : Response). x.status_code) e ∙ code),
      reason' ∙ (ap (λ (x : Response). x.status_text) e ∙ reason),
      body' ∙ (ap (λ (x : Response). x.body) e ∙ body),
    )

version-Without : Without b' ' (text "HTTP/1.1")
unfolding text
version-Without = ground arith

version-line : Without b'\r' (text "HTTP/1.1")
unfolding text
version-line = ground arith

status_parts-line :
    (n : ℕ) (reason : Text)
    → status_parts (text "HTTP/1.1" ++ (b' ' ∷ (decimal n ++ (b' ' ∷ reason))))
      ≡ some (decimal n, reason)
unfolding status_parts
status_parts-line n reason = rw (
  cut-part b' ' (text "HTTP/1.1") (decimal n ++ (b' ' ∷ reason)) version-Without,
  cut-part b' ' (decimal n) reason (Without-decimal b' ' n (omega arith)),
  status_parts,
)

-- the response before its headers are read
abbrev pub bare : ℕ → Text → Text → Response
bare n reason body = record {
  status_code = pos n;
  status_text = reason;
  headers = [];
  body = body;
  content_type = [];
  content_length = pos 0;
}

pub parse_head-lines :
    (n : ℕ) (reason body : Text) (ls : List Text)
    → n < 2 ^ 63
    → parse_head ((text "HTTP/1.1" ++ (b' ' ∷ (decimal n ++ (b' ' ∷ reason)))) ∷ ls) body
      ≡ ok (field_lines ls (bare n reason body))
unfolding parse_head
parse_head-lines n reason body ls fits =
    rw (status_parts-line n reason, scan_int-decimal n fits, parse_head)

pub status-IsLine :
    (n : ℕ) (reason : Text)
    → Without b'\r' reason
    → IsLine (text "HTTP/1.1" ++ (b' ' ∷ (decimal n ++ (b' ' ∷ reason))))
unfolding text
status-IsLine n reason h =
    Without-append b'\r' (text "HTTP/1.1") (b' ' ∷ (decimal n ++ (b' ' ∷ reason))) version-line (
      (λ e. omega arith),
      Without-append b'\r' (decimal n) (b' ' ∷ reason) (Without-decimal b'\r' n (omega arith))
          ((λ e. omega arith), h),
    )
