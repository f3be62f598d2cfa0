-- ===== src/Http/Response/RoundTrip.antt =====
-- The client's parser reads what the server writes.
use distributed_systems_go.Base.{
  ℕ, ◌^◌, ◌<◌, ◌≡◌, sym, ap, ◌∙◌, List, [], ◌∷◌, ◌++◌, map, none, some, arith, Text, text, decimal,
  ok, All,
}
use distributed_systems_go.Base.Int.{pos, show_int}
use distributed_systems_go.Base.Table.{Table, lookup, IsDistinct, insert-IsDistinct, insert-All}
use distributed_systems_go.Base.Table.Order.{
  IsReordering, All-IsReordering, IsDistinct-IsReordering, insert_all, insert_all-distinct,
}
use distributed_systems_go.Http.Message.{Response}
use distributed_systems_go.Http.Strings.Trim.{IsTrimmed}
use distributed_systems_go.Http.Strings.Split.{Without}
use distributed_systems_go.Http.Strings.Search.{
  blank_line, cut_text, split_lines, join_lines, IsLine, AreLines, split_lines-join, cut_text-join,
}
use distributed_systems_go.Http.Response.Head.{
  IsField, line_of, lines-AreLines, join_lines-fields, Carries, field_lines-Carries, bare,
  parse_head-lines, status-IsLine,
}
use distributed_systems_go.Http.Response.{
  fields, status_line, response_string, sent_headers, or_default, write_response, field_lines,
  parse_head, parse_response,
}

parse_response-cut :
    (raw head body : Text)
    → cut_text blank_line raw ≡ some (head, body)
    → parse_response raw ≡ parse_head (split_lines head) body
unfolding parse_response
parse_response-cut raw head body e = rw (e, parse_response)

-- The text of a response is read as its code, status text and body, with the given headers.
parse_response-string :
    (n : ℕ) (hs : Table Text) (r : Response)
    → r.status_code ≡ pos n
    → n < 2 ^ 63
    → Without b'\r' r.status_text
    → All IsField hs
    → (r' : Response) × (parse_response (response_string hs r) ≡ ok r')
      × Carries (insert_all hs []) r r'
unfolding response_string status_line show_int
parse_response-string n hs r code fits reason h =
    let line : Text = text "HTTP/1.1" ++ (b' ' ∷ (decimal n ++ (b' ' ∷ r.status_text))) in
    let ls : List Text = map line_of hs in
    let same_line : status_line r ≡ line =
      ap (λ z. text "HTTP/1.1" ++ (b' ' ∷ (show_int z ++ (b' ' ∷ r.status_text)))) code in
    let joined : response_string hs r ≡ join_lines line ls ++ (blank_line ++ r.body) =
      ap (λ l. l ++ (b'\r' ∷ b'\n' ∷ fields hs (b'\r' ∷ b'\n' ∷ r.body))) same_line
      ∙ join_lines-fields line hs r.body in
    let is_line : IsLine line = status-IsLine n r.status_text reason in
    let are_lines : AreLines ls = lines-AreLines hs h in
    let (headers, kept_code, kept_reason, kept_body) =
      field_lines-Carries hs (bare n r.status_text r.body) h in
    (
      field_lines ls (bare n r.status_text r.body),
      ap parse_response joined
          ∙ (parse_response-cut _ _ _ (cut_text-join line ls r.body is_line are_lines)
              ∙ (ap (λ ts. parse_head ts r.body) (split_lines-join line ls is_line are_lines)
                  ∙ parse_head-lines n r.status_text r.body ls fits)),
      (headers, kept_code ∙ sym code, kept_reason, kept_body),
    )

or_default-IsDistinct :
    (key value : Text) (hs : Table Text)
    → IsDistinct hs
    → All IsField hs
    → IsField (key, value)
    → let hs' = or_default key value (lookup key hs) hs in IsDistinct hs' × All IsField hs'
or_default-IsDistinct key value hs d h f =
    elim (lookup key hs)
      as (λ o. IsDistinct (or_default key value o hs) × All IsField (or_default key value o hs)) [
        | none ↦ (insert-IsDistinct key value hs d, insert-All IsField key value hs f h)
        | some v ↦ (d, h)
      ]

server-IsField : IsField (text "Server", text "IoT-Server/1.0")
unfolding text
server-IsField = ground arith

-- A header's value that a response carries unchanged.
abbrev pub IsFieldValue : Text → Type 0
IsFieldValue v = IsTrimmed v × Without b'\r' v

date-IsField : (date : Text) → IsFieldValue date → IsField (text "Date", date)
unfolding text
date-IsField date h = ground arith

sent_headers-IsDistinct :
    (date : Text) (hs : Table Text)
    → IsFieldValue date
    → IsDistinct hs
    → All IsField hs
    → IsDistinct (sent_headers date hs) × All IsField (sent_headers date hs)
unfolding sent_headers
sent_headers-IsDistinct date hs hd d h =
    let (d', h') =
      or_default-IsDistinct (text "Server") (text "IoT-Server/1.0") hs d h server-IsField in
    or_default-IsDistinct (text "Date") date _ d' h' (date-IsField date hd)

-- A response that the server writes, in whatever order it visits the headers, is read by the
-- client as the same code, status text and body, with exactly the headers that were sent, if the
-- code is not negative and fits an int, no text holds a carriage return, no header is there twice,
-- the headers' names and values and the date begin and end with an ASCII byte that is no blank,
-- and the names hold no colon.
pub parse_response-write :
    (visit : Table Text → Table Text) (date : Text) (n : ℕ) (r : Response)
    → IsReordering (visit (sent_headers date r.headers)) (sent_headers date r.headers)
    → IsFieldValue date
    → IsDistinct r.headers
    → All IsField r.headers
    → r.status_code ≡ pos n
    → n < 2 ^ 63
    → Without b'\r' r.status_text
    → (r' : Response) × (parse_response (write_response visit date r) ≡ ok r')
      × (r'.status_code ≡ r.status_code)
      × (r'.status_text ≡ r.status_text)
      × (r'.body ≡ r.body)
      × ((key : Text) → lookup key r'.headers ≡ lookup key (sent_headers date r.headers))
unfolding write_response
parse_response-write visit date n r order hd distinct h code fits reason =
    let (d, f) = sent_headers-IsDistinct date r.headers hd distinct h in
    let (d', same) = IsDistinct-IsReordering order d in
    let (r', parsed, (headers, kept_code, kept_reason, kept_body)) =
      parse_response-string n (visit (sent_headers date r.headers)) r code fits reason
        (All-IsReordering IsField order f) in
    (
      r',
      parsed,
      kept_code,
      kept_reason,
      kept_body,
      λ key. ap (lookup key) (headers ∙ insert_all-distinct _ d') ∙ same key,
    )
