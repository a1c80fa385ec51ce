-- ===== src/Utils/HttpLogGuard.antt =====
-- `HttpLogGuard` (include/Utils/HttpLogGuard.h): what is logged for one pass of the parser. The request
-- is a reference, so its value at the end is an argument of the destructor. How a stream prints a
-- duration in nanoseconds as milliseconds with two digits is a parameter.
use c_http_1_1_server.Base.{ℕ, ◌-◌, [], ◌∷◌, Option, Bytes, codes}
use c_http_1_1_server.Http.Request.{HttpMethod, HttpRequest}
use c_http_1_1_server.Http.Response
use c_http_1_1_server.Http.Response.{HttpResponse}
use c_http_1_1_server.Utils.Logger.{Logger, log_http}

-- `m_res_ptr` points to the fallback or to the response that was set.
pub record HttpLogGuard : Type 0 where
  pub m_fd : Option ℕ
  pub m_res : HttpResponse
  pub m_start_time : ℕ

abbrev pub method_to_string : HttpMethod → Bytes
method_to_string HttpMethod.get = codes "GET"
method_to_string HttpMethod.post = codes "POST"
method_to_string HttpMethod.put = codes "PUT"
method_to_string HttpMethod.delete = codes "DELETE"
method_to_string HttpMethod.head = codes "HEAD"
method_to_string HttpMethod.options = codes "OPTIONS"
method_to_string HttpMethod.unknown = codes "UNKNOWN"

unfoldable pub guard : ℕ → Option ℕ → HttpLogGuard
guard now fd = record { m_fd = fd; m_res = Response.fresh; m_start_time = now }

unfoldable pub set_response : HttpResponse → HttpLogGuard → HttpLogGuard
set_response res g = record g { m_res = res }

abbrev pub path_or_root : Bytes → Bytes
path_or_root [] = codes "/"
path_or_root (c ∷ path) = c ∷ path

-- The destructor. A name of a method is never empty.
unfoldable pub destroy : (ℕ → Bytes) → Bytes → ℕ → HttpRequest → HttpLogGuard → Logger → Logger
unfolding log_http
destroy print_ms thread_id now req g l =
    log_http g.m_fd (method_to_string req.method) (path_or_root req.path) g.m_res.status_code
      (print_ms (now - g.m_start_time)) thread_id now l
