-- ===== src/Http/Request.antt =====
-- `HttpMethod` and `HttpRequest` (include/Http/HttpRequest.h, src/Http/HttpRequest.cpp).
use c_http_1_1_server.Base.{
  Bool, true, false, [], none, some, if◌then◌else◌, Bytes, bytes_eq, codes, contains, to_lower,
}
use c_http_1_1_server.Http.Headers
use c_http_1_1_server.Http.Headers.{HttpHeaders}

pub data HttpMethod : Type 0 where
  get post put delete head options unknown : HttpMethod

pub record HttpRequest : Type 0 where
  pub method : HttpMethod
  pub path : Bytes
  pub version : Bytes
  pub headers : HttpHeaders
  pub body : Bytes

abbrev pub fresh : HttpRequest
fresh = record { method = unknown; path = []; version = []; headers = Headers.empty; body = [] }

-- The value of a `Connection` header decides, and else the version.
connection_says : Bytes → Bytes → Bool
connection_says version v =
    if contains (codes "close") v
    then false
    else if contains (codes "keep-alive") v
    then true
    else bytes_eq version (codes "HTTP/1.1")

unfoldable pub wants_keep_alive : HttpRequest → Bool
unfolding connection_says
wants_keep_alive r = elim (Headers.get (codes "Connection") r.headers) [
  | some conn ↦ connection_says r.version (to_lower conn)
  | none ↦ bytes_eq r.version (codes "HTTP/1.1")
]

unfoldable pub reset : HttpRequest → HttpRequest
reset r = record { method = unknown; path = []; version = []; headers = Headers.empty; body = [] }
