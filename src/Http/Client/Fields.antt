-- ===== src/Http/Client/Fields.antt =====
-- The header lines that the client writes, at the server's parser.
use distributed_systems_go.Base.{
  ℕ, ◌≡◌, sym, ap, ◌∙◌, [], ◌∷◌, ◌++◌, append_assoc, arith, Text, text, decimal, ok, All,
}
use distributed_systems_go.Base.Table.{insert}
use distributed_systems_go.Http.Message.{Request}
use distributed_systems_go.Http.Strings.{cut}
use distributed_systems_go.Http.Strings.Trim.{IsTrimmed, EndsPlain, trim_space-blank}
use distributed_systems_go.Http.Strings.Split.{Without, Without-append, cut-part}
use distributed_systems_go.Http.Strings.Number.{IsDigit, decimal-digits, Without-digits}
use distributed_systems_go.Http.Parse.{End, special_header, header_line, read_headers}
use distributed_systems_go.Http.Parse.Lines.{
  IsTrimmed-ends, IsTrimmed-append, trim_space-trimmed, read_headers-line,
}
use distributed_systems_go.Http.Client.{field}

-- A text that a header carries unchanged.
abbrev pub IsValue : Text → Type 0
IsValue t = IsTrimmed t × Without b'\n' t

-- A header's name.
abbrev pub IsKey : Text → Type 0
IsKey t = IsTrimmed t × (Without b'\n' t × Without b':' t)

pub host-IsKey : IsKey (text "Host")
unfolding text
host-IsKey = ground arith

pub connection-IsKey : IsKey (text "Connection")
unfolding text
connection-IsKey = ground arith

pub content_length-IsKey : IsKey (text "Content-Length")
unfolding text
content_length-IsKey = ground arith

pub content_type-IsKey : IsKey (text "Content-Type")
unfolding text
content_type-IsKey = ground arith

pub close-IsValue : IsValue (text "close")
unfolding text
close-IsValue = ground arith

EndsPlain-digits : (c : ℕ) (t : Text) → All IsDigit (c ∷ t) → EndsPlain (c ∷ t)
EndsPlain-digits c [] h = (omega (arith, h.0), omega (arith, h.0))
EndsPlain-digits c (d ∷ t) h = EndsPlain-digits d t h.1

pub decimal-IsValue : (n : ℕ) → IsValue (decimal n)
decimal-IsValue n =
    let (c, cs, found, digits) = decimal-digits n in
    let h : IsValue (c ∷ cs) = (
      ((omega (arith, digits.0), omega (arith, digits.0)), EndsPlain-digits c cs digits),
      Without-digits b'\n' (c ∷ cs) (omega arith) digits,
    ) in
    rw found h

-- A header entered under its name.
abbrev pub with_header : Text → Text → Request → Request
with_header key value req = record req { headers = insert key value req.headers }

module _ (quote : Text → Text) where
  header_line-field :
      (key value : Text) (req : Request)
      → IsKey key
      → IsTrimmed value
      → header_line quote (cut b':' (key ++ b':' ∷ b' ' ∷ value)) req
        ≡ special_header quote key value (with_header key value req)
  unfolding header_line
  header_line-field key value req hk hv = rw (
    cut-part b':' key (b' ' ∷ value) hk.1.1,
    trim_space-trimmed key hk.0,
    trim_space-blank value hv,
  )

  module _ (memory : ℕ) (end : End) where
    pub read_headers-field :
        (key value rest : Text) (req req' : Request)
        → IsKey key
        → IsValue value
        → special_header quote key value (with_header key value req) ≡ ok req'
        → read_headers memory quote end [] req (field key value rest)
          ≡ read_headers memory quote end [] req' rest
    unfolding field
    read_headers-field key value rest req req' hk hv e =
        ap (read_headers memory quote end [] req)
          (sym (append_assoc key (b':' ∷ b' ' ∷ value) (b'\r' ∷ b'\n' ∷ rest)))
        ∙ read_headers-line memory quote end (key ++ b':' ∷ b' ' ∷ value) rest req req'
            (IsTrimmed-append key (b':' ∷ b' ' ∷ []) value hk.0 (IsTrimmed-ends value hv.0))
            (Without-append b'\n' key (b':' ∷ b' ' ∷ value) hk.1.0
              ((λ e. omega arith), ((λ e. omega arith), hv.1)))
            (header_line-field key value req hk hv.0 ∙ e)

pub json-IsValue : IsValue (text "application/json")
unfolding text
json-IsValue = ground arith
