-- ===== src/Http/Exchange/Answers.antt =====
-- The responses that the programs make can be sent.
use distributed_systems_go.Base.{ℕ, ◌^◌, ◌<◌, eq_text, refl, arith, length, Text, text, decimal}
use distributed_systems_go.Base.Int.{pos, show_int}
use distributed_systems_go.Base.Table.{lookup, insert}
use distributed_systems_go.Http.Message.{
  create_json_response, create_response, new_response, set_content_type, set_body, status_texts,
  plain_response,
}
use distributed_systems_go.Http.Strings.Trim.{IsTrimmed}
use distributed_systems_go.Http.Strings.Split.{Without}
use distributed_systems_go.Http.Strings.Number.{Without-decimal}
use distributed_systems_go.Http.Client.Fields.{decimal-IsValue}
use distributed_systems_go.Http.Response.Head.{IsField}
use distributed_systems_go.Http.Exchange.Loop.{IsSendable}

content_length-name :
    IsTrimmed (text "Content-Length")
    × (Without b':' (text "Content-Length") × Without b'\r' (text "Content-Length"))
unfolding text
content_length-name = ground arith

length-IsField : (n : ℕ) → IsField (text "Content-Length", decimal n)
length-IsField n =
    (content_length-name, ((decimal-IsValue n).0, Without-decimal b'\r' n (omega arith)))

-- A plain response can be sent, for a code whose status text holds no carriage return.
pub plain_response-IsSendable :
    (n : ℕ) (body : Text)
    → n < 2 ^ 63
    → Without b'\r' (status_texts (pos n))
    → IsSendable (plain_response (pos n) body)
unfolding plain_response insert show_int lookup
plain_response-IsSendable n body fits reason =
    (n, refl, fits, reason, (refl, tt), (length-IsField (length body), tt))

json-IsField : IsField (text "Content-Type", text "application/json")
unfolding text
json-IsField = ground arith

-- A response with JSON can be sent, for a code whose status text holds no carriage return.
pub create_json_response-IsSendable :
    (n : ℕ) (body : Text)
    → n < 2 ^ 63
    → Without b'\r' (status_texts (pos n))
    → IsSendable (create_json_response (pos n) body)
unfolding create_json_response create_response new_response set_content_type set_body insert
    show_int lookup text eq_text
create_json_response-IsSendable n body fits reason =
    (n, refl, fits, reason, (refl, (refl, tt)), (json-IsField, (length-IsField (length body), tt)))
