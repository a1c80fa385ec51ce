-- ===== src/Http/Encoder.antt =====
-- `HttpResponseEncoder` (include/Http/HttpResponseEncoder.h, src/Http/HttpResponseEncoder.cpp).
-- `encode` changes the response that it is given, so both functions return it.
pub mod Framing
use c_http_1_1_server.Base.{
  ℕ, zero, suc, ◌+◌, ◌-◌, ◌*◌, Bool, true, false, not, List, [], ◌∷◌, ◌++◌, ltb, ◌==◌, min,
  if◌then◌else◌, length, take, drop, Bytes, codes, crlf,
}
use c_http_1_1_server.Http.Headers
use c_http_1_1_server.Http.Numbers.{to_string, to_hex}
use c_http_1_1_server.Http.Response.{HttpResponse, BodyType}

abbrev pub max_chuck_size : ℕ
max_chuck_size = 64 * 1024

-- The lengths, in `size_t`, decide the framing headers and the body type.
unfoldable pub set_response_header : HttpResponse → HttpResponse
set_response_header res =
    let body_size = length res.body in
    if ltb max_chuck_size body_size
    then record res {
      body_type = BodyType.chunked;
      headers =
          Headers.set (codes "Transfer-Encoding") (codes "chunked")
            (Headers.del (codes "Content-Length") res.headers);
    }
    else if body_size == 0
    then record res { headers = Headers.set (codes "Content-Length") (codes "0") res.headers }
    else record res {
      body_type = BodyType.content_length;
      headers =
          Headers.set (codes "Content-Length") (to_string body_size)
            (Headers.del (codes "Transfer-Encoding") res.headers);
    }

-- One chunk: its size in hexadecimal, its data, and a CRLF behind each.
unfoldable pub chunk : Bytes → Bytes
chunk bytes = to_hex (length bytes) ++ (crlf ++ (bytes ++ crlf))

-- The `while` loop, on the part of the body from `offset` on; each round takes at least one byte of
-- it, so the fuel is the number of bytes left.
unfoldable pub chunks : ℕ → Bytes → Bytes
unfolding chunk
chunks zero left = []
chunks (suc fuel) [] = []
chunks (suc fuel) (b ∷ bs) =
    let chunk_len = min max_chuck_size (length (b ∷ bs)) in
    chunk (take chunk_len (b ∷ bs)) ++ chunks fuel (drop chunk_len (b ∷ bs))

abbrev pub last_chunk : Bytes
last_chunk = codes "0" ++ (crlf ++ crlf)

unfoldable pub chunked_body : Bytes → Bytes
unfolding chunks
chunked_body body = chunks (length body) body ++ last_chunk

unfoldable pub encode_body : HttpResponse → Bytes
unfolding chunked_body
encode_body r = elim r.body_type [
  | BodyType.content_length ↦ r.body
  | BodyType.chunked ↦ chunked_body r.body
]

unfoldable pub header_lines : List (Bytes × Bytes) → Bytes
header_lines [] = []
header_lines ((key, value) ∷ hs) = key ++ (codes ": " ++ (value ++ (crlf ++ header_lines hs)))

unfoldable pub status_line : HttpResponse → Bytes
status_line r =
    codes "HTTP/1.1 " ++ (to_string r.status_code ++ (codes " " ++ (r.status_message ++ crlf)))

-- The order in which an `unordered_map` is walked is not the program's: `walk` is that order.
module _ (walk : List (Bytes × Bytes) → List (Bytes × Bytes)) where
  unfoldable pub encode : HttpResponse → Bool → Bytes × HttpResponse
  unfolding set_response_header encode_body header_lines status_line
  encode response is_head_request =
      let r = set_response_header response in
      let head = status_line response ++ (header_lines (walk r.headers.m_headers) ++ crlf) in
      (head ++ (if not is_head_request then encode_body r else []), r)
