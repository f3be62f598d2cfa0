-- ===== src/Cmd/Gateway/Answer.antt =====
-- The server's answers, as the gateway sees them.
use distributed_systems_go.Base.{
  ℕ, ◌≡◌, refl, sym, ap, ◌∙◌, true, inl, inr, Bool-cases, ◌∷◌, ◌++◌, append_assoc, List, arith,
  ==_iff, Text, text, decimal, is_empty, Result, ok, err,
}
use distributed_systems_go.Base.Int.{ℤ, pos, negsuc}
use distributed_systems_go.Types.{SensorData}
use distributed_systems_go.Rpc.{TimestampPb}
use distributed_systems_go.Database.Service.{Service}
use distributed_systems_go.Http.Message.{Request, Response, status_ok, status_texts}
use distributed_systems_go.Http.Strings.Split.{Without}
use distributed_systems_go.Http.Client.RoundTrip.{IsPath}
use distributed_systems_go.Http.Url.{scheme}
use distributed_systems_go.Http.Exchange.Loop.{IsSendable, IsSameAnswer, url_of}
use distributed_systems_go.Http.Exchange.Answers.{plain_response-IsSendable}
use distributed_systems_go.Cmd.Json.{Json}
use distributed_systems_go.Cmd.Server.{World, stored_response, post_reading, post_data}
use distributed_systems_go.Cmd.Gateway.{eq_int, check_answer}

eq_int-eq : (a b : ℤ) → eq_int a b ≡ true → a ≡ b
unfolding eq_int
eq_int-eq (pos a) (pos b) h = ap pos ((==_iff a b).0 h)
eq_int-eq (pos a) (negsuc b) h = absurd (cc)
eq_int-eq (negsuc a) (pos b) h = absurd (cc)
eq_int-eq (negsuc a) (negsuc b) h = ap negsuc ((==_iff a b).0 h)

pub check_answer-ok :
    (r : Response) (res : Result Response)
    → IsSameAnswer r res
    → check_answer res ≡ ok tt
    → r.status_code ≡ status_ok
unfolding check_answer
check_answer-ok r (err e) same h = absurd same
check_answer-ok r (ok r') same h = elim (Bool-cases (eq_int r'.status_code status_ok)) [
  | inl e ↦ sym same.0 ∙ eq_int-eq r'.status_code status_ok e
  | inr e ↦ ground (arith, e)
]

pub check_answer-same :
    (r : Response) (res : Result Response)
    → IsSameAnswer r res
    → r.status_code ≡ status_ok
    → check_answer res ≡ ok tt
unfolding check_answer eq_int
check_answer-same r (err e) same h = absurd same
check_answer-same r (ok r') same h = let e : r'.status_code ≡ status_ok = same.0 ∙ h in rw e refl

pub reason-ok : Without b'\r' (status_texts (pos 200))
unfolding status_texts text
reason-ok = ground arith

reason-bad : Without b'\r' (status_texts (pos 400))
unfolding status_texts text
reason-bad = ground arith

reason-error : Without b'\r' (status_texts (pos 500))
unfolding status_texts text
reason-error = ground arith

stored_response-IsSendable : (r : Result (Unit {0})) → IsSendable (stored_response r)
unfolding stored_response
stored_response-IsSendable (ok u) = plain_response-IsSendable 200 _ (omega arith) reason-ok
stored_response-IsSendable (err e) = plain_response-IsSendable 500 _ (omega arith) reason-error

-- the gateway's flag for the server
abbrev pub server_url : Text → ℕ → Text
server_url host port = scheme ++ (host ++ b':' ∷ decimal port)

pub url_of-server_url :
    (host : Text) (port : ℕ) → server_url host port ++ text "/data" ≡ url_of host port (text "data")
unfolding text
url_of-server_url host port = append_assoc scheme (host ++ b':' ∷ decimal port) (text "/data")

pub data-IsPath : IsPath (b'/' ∷ text "data")
unfolding text
data-IsPath = ground arith

module _ (pb : TimestampPb) (json : Json) where
  open json use {marshal_reading, unmarshal_reading}

  post_reading-IsSendable :
      (w : World pb.Timestamp) (r : Result SensorData) (nodes : List Service)
      → IsSendable (post_reading pb json w r nodes).1
  unfolding post_reading
  post_reading-IsSendable w (err e) nodes = plain_response-IsSendable 400 _ (omega arith) reason-bad
  post_reading-IsSendable w (ok d) nodes = elim (Bool-cases (is_empty d.sensor_id)) [
    | inl missing ↦ rw missing (plain_response-IsSendable 400 _ (omega arith) reason-bad)
    | inr named ↦ rw named (stored_response-IsSendable _)
  ]

  -- Every answer to `POST /data` can be sent.
  pub post_data-IsSendable :
      (w : World pb.Timestamp) (req : Request) (nodes : List Service)
      → IsSendable (post_data pb json w req nodes).1
  unfolding post_data
  post_data-IsSendable w req nodes = post_reading-IsSendable w (unmarshal_reading req.body) nodes
