-- ===== src/Http/Response.antt =====
-- `BodyType` and `HttpResponse` (include/Http/HttpResponse.h, src/Http/HttpResponse.cpp). The fluent
-- setters return the changed response.
pub mod Close
use c_http_1_1_server.Base.{
  ℕ, Bool, true, false, not, ◌&&◌, [], Option, none, some, if◌then◌else◌, Bytes, codes, contains,
  to_lower,
}
use c_http_1_1_server.Http.Headers
use c_http_1_1_server.Http.Headers.{HttpHeaders}

pub data BodyType : Type 0 where
  content_length chunked : BodyType

pub record HttpResponse : Type 0 where
  pub status_code : ℕ
  pub status_message : Bytes
  pub headers : HttpHeaders
  pub body : Bytes
  pub body_type : BodyType
  pub close_after_send : Bool

abbrev pub fresh : HttpResponse
fresh = record {
  status_code = 200;
  status_message = codes "OK";
  headers = Headers.empty;
  body = [];
  body_type = content_length;
  close_after_send = false;
}

unfoldable pub set_status : ℕ → Bytes → HttpResponse → HttpResponse
set_status code message r = record r { status_code = code; status_message = message }

unfoldable pub set_header : Bytes → Bytes → HttpResponse → HttpResponse
set_header key value r = record r { headers = Headers.set key value r.headers }

unfoldable pub set_body : Bytes → HttpResponse → HttpResponse
set_body bytes r = record r { body = bytes }

unfoldable pub json : Bytes → HttpResponse → HttpResponse
unfolding set_body set_header
json s r = set_body s (set_header (codes "Content-Type") (codes "application/json") r)

unfoldable pub html : Bytes → HttpResponse → HttpResponse
unfolding set_body set_header
html s r = set_body s (set_header (codes "Content-Type") (codes "text/html; charset=utf-8") r)

-- A `Connection` header that asks for a close.
unfoldable pub asks_close : Option Bytes → Bool
asks_close (some existing) = contains (codes "close") (to_lower existing)
asks_close none = false

unfoldable pub already_close : HttpResponse → Bool
unfolding asks_close
already_close r = asks_close (Headers.get (codes "Connection") r.headers)

-- The header that says whether the connection is kept, and the flag the server acts on.
unfoldable pub announce : Bool → HttpResponse → HttpResponse
unfolding set_header
announce true r = record (set_header (codes "Connection") (codes "keep-alive") r) {
  close_after_send = false;
}
announce false r = record (set_header (codes "Connection") (codes "close") r) {
  close_after_send = true;
}

-- The code does not read `is_head_request`.
unfoldable pub finalize_for_connection : Bool → Bool → HttpResponse → HttpResponse
unfolding announce
finalize_for_connection client_wants_keep_alive is_head_request r =
    announce (client_wants_keep_alive && not (already_close r)) r

-- `body_type` and `close_after_send` stay.
unfoldable pub reset : HttpResponse → HttpResponse
reset r = record r {
  status_code = 200;
  status_message = codes "OK";
  headers = Headers.empty;
  body = [];
}
