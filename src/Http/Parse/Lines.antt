-- ===== src/Http/Parse/Lines.antt =====
-- How the parser takes one line.
use distributed_systems_go.Base.{
  ℕ, ◌≡◌, ◌≢◌, refl, sym, ap, ◌∙◌, false, [], ◌∷◌, ◌++◌, append-nil, append_assoc, some, arith,
  Text, is_empty, ok,
}
use distributed_systems_go.Http.Message.{Request}
use distributed_systems_go.Http.Strings.{
  trim_space, trim_left, trim_right, is_space, all_spaces, cut, split,
}
use distributed_systems_go.Http.Strings.Trim.{IsTrimmed, EndsPlain, trim_space-after}
use distributed_systems_go.Http.Strings.Split.{Without, ==_ne}
use distributed_systems_go.Http.Parse.{
  End, read_string, header_line, read_body, read_headers, request_line, parse_request,
}

EndsPlain-append : (xs ys : Text) → EndsPlain ys → EndsPlain (xs ++ ys)
EndsPlain-append [] ys h = h
EndsPlain-append (x ∷ []) [] h = absurd h
EndsPlain-append (x ∷ []) (y ∷ ys) h = h
EndsPlain-append (x ∷ z ∷ xs) ys h = EndsPlain-append (z ∷ xs) ys h

pub IsTrimmed-ends : (t : Text) → IsTrimmed t → EndsPlain t
IsTrimmed-ends [] h = absurd h
IsTrimmed-ends (c ∷ t) h = h.1

-- A text that starts trimmed and ends with a plain byte is trimmed.
pub IsTrimmed-append :
    (xs ys zs : Text) → IsTrimmed xs → EndsPlain zs → IsTrimmed (xs ++ (ys ++ zs))
IsTrimmed-append [] ys zs hx hz = absurd hx
IsTrimmed-append (x ∷ xs) ys zs hx hz =
    (hx.0, EndsPlain-append (x ∷ xs) (ys ++ zs) (EndsPlain-append ys zs hz))

trim_space-line : (t : Text) → IsTrimmed t → trim_space (t ++ b'\r' ∷ b'\n' ∷ []) ≡ t
unfolding all_spaces
trim_space-line t h = trim_space-after t (b'\r' ∷ b'\n' ∷ []) h (unfold is_space in refl)

pub trim_space-trimmed : (t : Text) → IsTrimmed t → trim_space t ≡ t
unfolding all_spaces
trim_space-trimmed t h = ap trim_space (sym (append-nil t)) ∙ trim_space-after t [] h refl

trimmed-nonempty : (t : Text) → IsTrimmed t → is_empty t ≡ false
trimmed-nonempty [] h = absurd h
trimmed-nonempty (c ∷ t) h = refl

read_string-part :
    (line t rest : Text)
    → Without b'\n' t
    → read_string line (t ++ b'\n' ∷ rest) ≡ some (line ++ (t ++ b'\n' ∷ []), rest)
unfolding read_string
read_string-part line [] rest h = refl
read_string-part line (c ∷ t) rest h =
    rw (==_ne c b'\n' h.0, read_string)
      (read_string-part (line ++ c ∷ []) t rest h.1
        ∙ ap (λ l. some (l, rest)) (append_assoc line (c ∷ []) (t ++ b'\n' ∷ [])))

Without-cr : (t : Text) → Without b'\n' t → Without b'\n' (t ++ b'\r' ∷ [])
Without-cr [] h = ((λ e. omega arith), tt)
Without-cr (c ∷ t) h = (h.0, Without-cr t h.1)

module _ (memory : ℕ) (quote : Text → Text) (end : End) where
  -- The request line is split at its blanks.
  pub parse_request-line :
      (t rest : Text)
      → IsTrimmed t
      → Without b'\n' t
      → parse_request memory quote end (t ++ b'\r' ∷ b'\n' ∷ rest)
        ≡ request_line memory quote end (split b' ' t) rest
  unfolding parse_request
  parse_request-line t rest h w =
      let found : read_string [] (t ++ b'\r' ∷ b'\n' ∷ rest)
          ≡ some (t ++ b'\r' ∷ b'\n' ∷ [], rest) =
        ap (read_string []) (sym (append_assoc t (b'\r' ∷ []) (b'\n' ∷ rest)))
        ∙ (read_string-part [] (t ++ b'\r' ∷ []) rest (Without-cr t w)
            ∙ ap (λ l. some (l, rest)) (append_assoc t (b'\r' ∷ []) (b'\n' ∷ []))) in
      rw (found, trim_space-line t h, parse_request)

  read_headers-skip :
      (line : Text) (c : ℕ) (rest : Text) (req : Request)
      → c ≢ b'\n'
      → read_headers memory quote end line req (c ∷ rest)
        ≡ read_headers memory quote end (line ++ c ∷ []) req rest
  unfolding read_headers
  read_headers-skip line c rest req h = rw (==_ne c b'\n' h, read_headers)

  read_headers-newline :
      (line t rest : Text) (req req' : Request)
      → trim_space (line ++ b'\n' ∷ []) ≡ t
      → is_empty t ≡ false
      → header_line quote (cut b':' t) req ≡ ok req'
      → read_headers memory quote end line req (b'\n' ∷ rest)
        ≡ read_headers memory quote end [] req' rest
  unfolding read_headers
  read_headers-newline line t rest req req' trimmed full e =
      let full' : is_empty (trim_space (line ++ b'\n' ∷ [])) ≡ false = ap is_empty trimmed ∙ full in
      let e' : header_line quote (cut b':' (trim_space (line ++ b'\n' ∷ []))) req ≡ ok req' =
        ap (λ u. header_line quote (cut b':' u) req) trimmed ∙ e in
      rw (full', e', read_headers)

  read_headers-part :
      (line t rest : Text) (req : Request)
      → Without b'\n' t
      → read_headers memory quote end line req (t ++ b'\n' ∷ rest)
        ≡ read_headers memory quote end (line ++ t) req (b'\n' ∷ rest)
  read_headers-part line [] rest req h =
      ap (λ l. read_headers memory quote end l req (b'\n' ∷ rest)) (sym (append-nil line))
  read_headers-part line (c ∷ t) rest req h =
      read_headers-skip line c (t ++ b'\n' ∷ rest) req h.0
      ∙ (read_headers-part (line ++ c ∷ []) t rest req h.1
          ∙ ap (λ l. read_headers memory quote end l req (b'\n' ∷ rest))
              (append_assoc line (c ∷ []) t))

  -- A header line that the parser accepts.
  pub read_headers-line :
      (t rest : Text) (req req' : Request)
      → IsTrimmed t
      → Without b'\n' t
      → header_line quote (cut b':' t) req ≡ ok req'
      → read_headers memory quote end [] req (t ++ b'\r' ∷ b'\n' ∷ rest)
        ≡ read_headers memory quote end [] req' rest
  read_headers-line t rest req req' h w e =
      ap (read_headers memory quote end [] req) (sym (append_assoc t (b'\r' ∷ []) (b'\n' ∷ rest)))
      ∙ (read_headers-part [] (t ++ b'\r' ∷ []) rest req (Without-cr t w)
          ∙ read_headers-newline (t ++ b'\r' ∷ []) t rest req req'
              (ap trim_space (append_assoc t (b'\r' ∷ []) (b'\n' ∷ [])) ∙ trim_space-line t h)
              (trimmed-nonempty t h) e)

  -- An empty line ends the headers.
  pub read_headers-end :
      (rest : Text) (req : Request)
      → read_headers memory quote end [] req (b'\r' ∷ b'\n' ∷ rest)
        ≡ read_body memory quote end req rest
  unfolding read_headers trim_space trim_left trim_right is_space
  read_headers-end rest req = refl
