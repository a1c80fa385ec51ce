-- ===== src/Http/RequestLines.antt =====
-- `stringToMethod`, `parseRequestLine` and `parseHeaderLine` of `HttpRequestParser`
-- (src/Http/HttpRequestParser.cpp). The request is a reference parameter in the source: here it is an
-- argument, and comes back with whether the line passes.
use c_http_1_1_server.Base.{
  ℕ, ◌+◌, Bool, true, false, not, ◌&&◌, ◌||◌, [], ◌∷◌, none, some, ◌==◌, if◌then◌else◌, take, drop,
  Bytes, bytes_eq, codes, find_byte, is_empty,
}
use c_http_1_1_server.Http.Headers
use c_http_1_1_server.Http.Request.{HttpMethod, HttpRequest}

unfoldable pub string_to_method : Bytes → HttpMethod
string_to_method s =
    if bytes_eq s (codes "GET")
    then HttpMethod.get
    else if bytes_eq s (codes "POST")
    then HttpMethod.post
    else if bytes_eq s (codes "PUT")
    then HttpMethod.put
    else if bytes_eq s (codes "DELETE")
    then HttpMethod.delete
    else if bytes_eq s (codes "HEAD")
    then HttpMethod.head
    else if bytes_eq s (codes "OPTIONS")
    then HttpMethod.options
    else HttpMethod.unknown

abbrev pub is_unknown : HttpMethod → Bool
is_unknown HttpMethod.unknown = true
is_unknown _ = false

-- The request with its three fields from the line, and whether they pass. `tail` is what stands
-- behind the first space, and `second` the position of the next space in it.
unfoldable pub fill_request_line : Bytes → Bytes → ℕ → HttpRequest → Bool × HttpRequest
fill_request_line method_str tail second r =
    let m = string_to_method method_str in
    let path_str = take second tail in
    (
      not (is_unknown m) && not (is_empty path_str),
      record r { method = m; path = path_str; version = drop (second + 1) tail },
    )

-- `sv.find(' ', first_space + 1)` and the cuts at both spaces.
unfoldable pub find_second_space : Bytes → Bytes → HttpRequest → Bool × HttpRequest
unfolding fill_request_line
find_second_space method_str tail r = elim (find_byte b' ' tail) [
  | none ↦ (false, r)
  | some second ↦ fill_request_line method_str tail second r
]

unfoldable pub parse_request_line : Bytes → HttpRequest → Bool × HttpRequest
unfolding find_second_space
parse_request_line line r = elim (find_byte b' ' line) [
  | none ↦ (false, r)
  | some first ↦ find_second_space (take first line) (drop (first + 1) line) r
]

-- `remove_prefix(1)` as long as a space or a tab stands in front.
unfoldable pub trim_left : Bytes → Bytes
trim_left [] = []
trim_left (c ∷ cs) = let rest = trim_left cs in if c == b' ' || c == b'\t' then rest else c ∷ cs

unfoldable pub parse_header_line : Bytes → HttpRequest → Bool × HttpRequest
unfolding trim_left
parse_header_line line r = elim (find_byte b':' line) [
  | none ↦ (false, r)
  | some colon ↦ (
    true,
    record r {
      headers = Headers.set (take colon line) (trim_left (drop (colon + 1) line)) r.headers;
    },
  )
]
