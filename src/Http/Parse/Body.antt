-- ===== src/Http/Parse/Body.antt =====
-- pkg/http/request.go: the two ways of reading a body.
use distributed_systems_go.Base.{ℕ, ◌≡◌, refl, true, false, Text, text, eq_text}
use distributed_systems_go.Http.Message.{Request}
use distributed_systems_go.Http.Parse.{End, parsed, read_body, read_body_from}

module _ (memory : ℕ) (quote : Text → Text) (end : End) where
  -- For a POST, `ReadBodyFrom` reads what `ParseRequest` reads as the body.
  read_body-post :
      (req : Request) (stream : Text)
      → eq_text req.method (text "POST") ≡ true
      → read_body memory quote end req stream ≡ read_body_from memory quote end req stream
  unfolding read_body read_body_from
  read_body-post req stream post = rw post refl

  -- For another method `ParseRequest` leaves the body unread, whatever length is announced.
  read_body-other :
      (req : Request) (stream : Text)
      → eq_text req.method (text "POST") ≡ false
      → read_body memory quote end req stream ≡ parsed req
  unfolding read_body
  read_body-other req stream other = rw other refl
