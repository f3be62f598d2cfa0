-- ===== src/Http/Client.antt =====
-- pkg/http/client.go: the bytes of a request.

pub mod Fields
pub mod RoundTrip
use distributed_systems_go.Base.{
  [], ◌∷◌, ◌++◌, if◌then◌else◌, length, Text, text, is_empty, decimal,
}

-- `"%s: %s\r\n"` in front of the rest
unfoldable pub field : Text → Text → Text → Text
field key value rest = key ++ (b':' ∷ b' ' ∷ (value ++ (b'\r' ∷ b'\n' ∷ rest)))

-- the fields for the body, if there is one
unfoldable pub body_fields : Text → Text → Text → Text
unfolding field
body_fields body content_type rest =
    if is_empty body
    then rest
    else field (text "Content-Length") (decimal (length body))
        (field (text "Content-Type") content_type rest)

-- what `sendRequest` writes
unfoldable pub request_text : Text → Text → Text → Text → Text → Text
unfolding field body_fields
request_text method host path body content_type =
    (method ++ (b' ' ∷ (path ++ (b' ' ∷ text "HTTP/1.1"))))
    ++ (b'\r'
        ∷ b'\n'
        ∷ field (text "Host") host (
            body_fields body content_type
              (field (text "Connection") (text "close") (b'\r' ∷ b'\n' ∷ body))))
