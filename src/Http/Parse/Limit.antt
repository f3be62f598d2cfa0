-- ===== src/Http/Parse/Limit.antt =====
-- What the parser does with a length that the memory does not hold.
use distributed_systems_go.Base.{
  ℕ, ◌^◌, ◌<◌, ◌≡◌, refl, ◌∙◌, true, ◌∷◌, ◌++◌, arith, ltb, Text, text, eq_text_refl, decimal,
}
use distributed_systems_go.Base.Int.{pos}
use distributed_systems_go.Http.Message.{Request}
use distributed_systems_go.Http.Parse.{End, crashed, read_body, parse_request}
use distributed_systems_go.Http.Parse.Lines.{read_headers-end}
use distributed_systems_go.Http.Client.{field}
use distributed_systems_go.Http.Client.Fields.{
  content_length-IsKey, decimal-IsValue, read_headers-field,
}
use distributed_systems_go.Http.Client.RoundTrip.{
  IsPath, post-IsMethod, parse_request-start, special-length,
}

-- the start of a `POST` that announces a body of `n` bytes, and whatever follows it
abbrev pub announced : Text → ℕ → Text → Text
announced path n rest =
    (text "POST" ++ (b' ' ∷ (path ++ (b' ' ∷ text "HTTP/1.1"))))
    ++ (b'\r' ∷ b'\n' ∷ field (text "Content-Length") (decimal n) (b'\r' ∷ b'\n' ∷ rest))

module _ (memory : ℕ) (quote : Text → Text) (end : End) where
  read_body-huge :
      (req : Request) (n : ℕ) (rest : Text)
      → req.method ≡ text "POST"
      → req.content_len ≡ pos n
      → memory < n
      → read_body memory quote end req rest ≡ crashed
  unfolding read_body
  read_body-huge req n rest post len large =
      let full : ltb 0 n ≡ true = ground arith in
      let over : ltb memory n ≡ true = ground arith in
      rw (post, eq_text_refl (text "POST"), len, full, over) refl

  -- A `POST` that announces more bytes than the memory holds crashes the server, whether or not it
  -- sends them: the length is not checked before `make`.
  pub huge_length :
      (path : Text) (n : ℕ) (rest : Text)
      → IsPath path
      → memory < n
      → n < 2 ^ 63
      → parse_request memory quote end (announced path n rest) ≡ crashed
  huge_length path n rest hp large fits =
      parse_request-start quote memory end (text "POST") path _ post-IsMethod hp
      ∙ (read_headers-field quote memory end (text "Content-Length") _ _ _ _ content_length-IsKey
            (decimal-IsValue n) (special-length quote n _ fits)
          ∙ (read_headers-end memory quote end rest _ ∙ read_body-huge _ n rest refl refl large))
