-- ===== src/Http/Message.antt =====
-- HTTP messages as a client prints them, read by `HttpRequestParser::parse`.
pub mod Lines
pub mod Whole
use c_http_1_1_server.Base.{
  ℕ, ◌+◌, ◌≤◌, ◌≡◌, ◌≢◌, Bool, true, false, ◌||◌, List, [], ◌∷◌, ◌++◌, ◌==◌, length, Bytes, Lacks,
  codes, crlf,
}
use c_http_1_1_server.Protocol.Framer.{max_chunk_body_size}
use c_http_1_1_server.Http.Headers
use c_http_1_1_server.Http.Headers.{HttpHeaders}
use c_http_1_1_server.Http.Request.{HttpMethod}

-- The name of a method; no text stands for `unknown`.
abbrev pub method_name : HttpMethod → Bytes
method_name HttpMethod.get = codes "GET"
method_name HttpMethod.post = codes "POST"
method_name HttpMethod.put = codes "PUT"
method_name HttpMethod.delete = codes "DELETE"
method_name HttpMethod.head = codes "HEAD"
method_name HttpMethod.options = codes "OPTIONS"
method_name HttpMethod.unknown = []

pub record Head : Type 0 where
  pub method : HttpMethod
  pub path : Bytes
  pub version : Bytes
  pub fields : List (Bytes × Bytes)

abbrev pub request_text : Head → Bytes
request_text h = method_name h.method ++ (b' ' ∷ (h.path ++ (b' ' ∷ h.version)))

abbrev pub field_text : Bytes → Bytes → Bytes
field_text key value = key ++ (b':' ∷ b' ' ∷ value)

abbrev pub print_fields : List (Bytes × Bytes) → Bytes
print_fields [] = crlf
print_fields ((k, v) ∷ fs) = field_text k v ++ (crlf ++ print_fields fs)

abbrev pub print_head : Head → Bytes
print_head h = request_text h ++ (crlf ++ print_fields h.fields)

-- A value that is not changed by trimming.
abbrev pub IsTrimmed : Bytes → Type 0
IsTrimmed [] = Unit {0}
IsTrimmed (c ∷ cs) = (c == b' ' || c == b'\t') ≡ false

-- A field that the format can express: no CR in it, no `:` in its name, no blank before its value,
-- and a line that fits in 64 KB.
pub record IsField (key value : Bytes) : Type 0 where
  pub no_cr : Lacks b'\r' (field_text key value)
  pub no_colon : Lacks b':' key
  pub trimmed : IsTrimmed value
  pub fits : length (field_text key value) ≤ max_chunk_body_size

abbrev pub AllFields : List (Bytes × Bytes) → Type 0
AllFields [] = Unit {0}
AllFields ((k, v) ∷ fs) = IsField k v × AllFields fs

pub record IsPrintable (h : Head) : Type 0 where
  pub known : h.method ≢ HttpMethod.unknown
  pub path_ne_nil : h.path ≢ []
  pub no_space : Lacks b' ' h.path
  pub no_cr : Lacks b'\r' (request_text h)
  pub fits : length (request_text h) ≤ max_chunk_body_size
  pub fields : AllFields h.fields

-- The header map that the fields make, from first to last.
abbrev pub collect : List (Bytes × Bytes) → HttpHeaders → HttpHeaders
collect [] hs = hs
collect ((k, v) ∷ fs) hs = collect fs (Headers.set k v hs)
