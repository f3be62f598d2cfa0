-- ===== src/Http/Message.antt =====
-- pkg/http/request.go and response.go: requests and responses as data. A nil slice and an empty
-- one are not told apart; the program only asks for their length.
use distributed_systems_go.Base.{[], ◌==◌, if◌then◌else◌, length, Text, text}
use distributed_systems_go.Base.Table.{Table, insert}
use distributed_systems_go.Base.Int.{ℤ, pos, negsuc, show_int}

pub record Request : Type 0 where
  pub method : Text
  pub path : Text
  pub version : Text
  pub headers : Table Text
  pub body : Text
  pub content_type : Text
  pub content_len : ℤ

pub record Response : Type 0 where
  pub status_code : ℤ
  pub status_text : Text
  pub headers : Table Text
  pub body : Text
  pub content_type : Text
  pub content_length : ℤ

abbrev pub status_ok : ℤ
status_ok = pos 200

abbrev pub status_bad_request : ℤ
status_bad_request = pos 400

abbrev pub status_forbidden : ℤ
status_forbidden = pos 401

abbrev pub status_not_found : ℤ
status_not_found = pos 404

abbrev pub status_server_error : ℤ
status_server_error = pos 500

-- the map `statusTexts`, with "Unknown" for what is not in it
unfoldable pub status_texts : ℤ → Text
status_texts (pos n) =
    if n == 200
    then text "OK"
    else if n == 400
    then text "Bad Request"
    else if n == 404
    then text "Not Found"
    else if n == 500
    then text "Internal Server Error"
    else text "Unknown"
status_texts (negsuc n) = text "Unknown"

-- `NewResponse`
unfoldable pub new_response : ℤ → Response
new_response code = record {
  status_code = code;
  status_text = status_texts code;
  headers = [];
  body = [];
  content_type = text "text/plain";
  content_length = pos 0;
}

-- `SetContentType`
unfoldable pub set_content_type : Text → Response → Response
set_content_type t r = record r {
  content_type = t;
  headers = insert (text "Content-Type") t r.headers;
}

-- `SetBody`, and `SetBodyString`
unfoldable pub set_body : Text → Response → Response
set_body b r = record r {
  body = b;
  content_length = pos (length b);
  headers = insert (text "Content-Length") (show_int (pos (length b))) r.headers;
}

-- `SetHeader`
unfoldable pub set_header : Text → Text → Response → Response
set_header k v r = record r { headers = insert k v r.headers }

-- `CreateJSONResponse`, `CreateHTMLResponse`, `CreateTextResponse`
unfoldable pub create_response : Text → ℤ → Text → Response
unfolding new_response set_content_type set_body
create_response content_type code body =
    set_body body (set_content_type content_type (new_response code))

unfoldable pub create_json_response : ℤ → Text → Response
unfolding create_response
create_json_response = create_response (text "application/json")

unfoldable pub create_html_response : ℤ → Text → Response
unfolding create_response
create_html_response = create_response (text "text/html")

unfoldable pub create_text_response : ℤ → Text → Response
unfolding create_response
create_text_response = create_response (text "text/plain")

-- a new response with a text for its body
unfoldable pub plain_response : ℤ → Text → Response
unfolding new_response set_body
plain_response code body = set_body body (new_response code)
