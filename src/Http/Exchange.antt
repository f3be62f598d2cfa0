-- ===== src/Http/Exchange.antt =====
-- pkg/http/client.go, `HttpClient`: a request and its response over a link. What the network does is
-- the link: whether it connects, and what becomes of the bytes. `S` is the state of the other side.
pub mod Loop
pub mod Answers
pub mod Get
use distributed_systems_go.Base.{[], ◌∷◌, ◌++◌, Text, text, Result, ok, err}
use distributed_systems_go.Base.Int.{show_int}
use distributed_systems_go.Http.Message.{Response}
use distributed_systems_go.Http.Url.{Url, parse_url}
use distributed_systems_go.Http.Client.{request_text}
use distributed_systems_go.Http.Response.{parse_response}

-- what becomes of the bytes of a request: an error of `Write`, one of `ReadAll`, or the answer
pub data Delivery : Type 0 where
  not_sent : Text → Delivery
  not_read : Text → Delivery
  received : Text → Delivery

pub record Link (S : Type 0) : Type 0 where
  -- `net.DialTimeout`
  pub dial : Text → Result (Unit {0})
  -- `SetDeadline`
  pub set_deadline : Result (Unit {0})
  pub deliver : Text → S → S × Delivery

unfoldable pub parse_delivery : Delivery → Result Response
parse_delivery (not_sent e) = err (text "error sending request: " ++ e)
parse_delivery (not_read e) = err (text "error reading response: " ++ e)
parse_delivery (received raw) = elim (parse_response raw) [
  | ok r ↦ ok r
  | err e ↦ err (text "error parsing response: " ++ e)
]

-- `"%s:%d"`
abbrev pub address : Url → Text
address u = u.host ++ (b':' ∷ show_int u.port)

module _ {S : Type 0} (link : Link S) where
  open link use {dial, set_deadline, deliver}

  -- `sendRequest` from the connection on
  unfoldable pub send_to : Text → Url → Text → Text → S → S × Result Response
  send_to method u body content_type st = elim (dial (address u)) [
    | err e ↦ (st, err (text "error connecting to " ++ (address u ++ (text ": " ++ e))))
    | ok _ ↦ elim set_deadline [
      | err e ↦ (st, err (text "error setting connection deadline: " ++ e))
      | ok _ ↦
          let (st', d) = deliver (request_text method u.host u.path body content_type) st in
          (st', parse_delivery d)
    ]
  ]

  -- `sendRequest`
  unfoldable pub send_request : Text → Text → Text → Text → S → S × Result Response
  send_request method url body content_type st = elim (parse_url url) [
    | err e ↦ (st, err e)
    | ok u ↦ send_to method u body content_type st
  ]

  -- `Get`
  unfoldable pub get : Text → S → S × Result Response
  get url = send_request (text "GET") url [] []

  -- `Post`
  unfoldable pub post : Text → Text → Text → S → S × Result Response
  post url body content_type = send_request (text "POST") url body content_type

  -- `PostJSON`
  unfoldable pub post_json : Text → Text → S → S × Result Response
  post_json url body = post url body (text "application/json")
