-- ===== src/Http/Message/Lines.antt =====
-- One line at a time: `parseRequestLine` and `parseHeaderLine` on printed lines.
use c_http_1_1_server.Base.{
  ℕ, zero, suc, ◌+◌, ◌≡◌, ◌≢◌, refl, true, false, [], ◌∷◌, ◌++◌, arith, length, drop, take_front,
  Bytes, Lacks, bytes_eq, find_byte-Lacks, is_empty,
}
use c_http_1_1_server.Http.Headers
use c_http_1_1_server.Http.Request.{HttpMethod, HttpRequest}
use c_http_1_1_server.Http.RequestLines.{
  string_to_method, is_unknown, parse_request_line, find_second_space, fill_request_line,
  parse_header_line, trim_left,
}
use c_http_1_1_server.Http.Message.{Head, method_name, request_text, field_text, IsTrimmed}

drop_past :
    (n c : ℕ) (front rest : Bytes) → n ≡ length front → drop (n + 1) (front ++ c ∷ rest) ≡ rest
drop_past zero c [] rest e = refl
drop_past zero c (x ∷ xs) rest e = absurd (omega arith)
drop_past (suc n) c [] rest e = absurd (omega arith)
drop_past (suc n) c (x ∷ xs) rest e =
    let shift : suc n + 1 ≡ suc (n + 1) = omega arith in
    rw shift (drop_past n c xs rest (omega arith))

-- Every known method is read back from its name.
string_to_method-method_name : (m : HttpMethod) → string_to_method (method_name m) ≡ m
unfolding string_to_method bytes_eq
string_to_method-method_name HttpMethod.get = refl
string_to_method-method_name _ = refl

method_name-Lacks : (m : HttpMethod) → Lacks b' ' (method_name m)
method_name-Lacks HttpMethod.get = (refl, (refl, (refl, tt)))
method_name-Lacks HttpMethod.post = (refl, (refl, (refl, (refl, tt))))
method_name-Lacks HttpMethod.put = (refl, (refl, (refl, tt)))
method_name-Lacks HttpMethod.delete = (refl, (refl, (refl, (refl, (refl, (refl, tt))))))
method_name-Lacks HttpMethod.head = (refl, (refl, (refl, (refl, tt))))
method_name-Lacks HttpMethod.options = (refl, (refl, (refl, (refl, (refl, (refl, (refl, tt)))))))
method_name-Lacks HttpMethod.unknown = tt

is_unknown_ne : (m : HttpMethod) → m ≢ HttpMethod.unknown → is_unknown m ≡ false
is_unknown_ne HttpMethod.unknown h = absurd (h refl)
is_unknown_ne _ h = refl

is_empty_ne : (s : Bytes) → s ≢ [] → is_empty s ≡ false
is_empty_ne [] h = absurd (h refl)
is_empty_ne (c ∷ cs) h = refl

fill_request_line_lem :
    (h : Head) (r : HttpRequest)
    → h.method ≢ HttpMethod.unknown
    → h.path ≢ []
    → fill_request_line (method_name h.method) (h.path ++ (b' ' ∷ h.version)) (length h.path) r
      ≡ (true, record r { method = h.method; path = h.path; version = h.version })
unfolding fill_request_line
fill_request_line_lem h r known ne = rw (
  string_to_method-method_name h.method,
  take_front (length h.path) h.path (b' ' ∷ h.version) refl,
  drop_past (length h.path) b' ' h.path h.version refl,
  is_unknown_ne h.method known,
  is_empty_ne h.path ne,
)

-- The request line gives its three parts to the request.
pub parse_request_line-request_text :
    (h : Head) (r : HttpRequest)
    → h.method ≢ HttpMethod.unknown
    → h.path ≢ []
    → Lacks b' ' h.path
    → parse_request_line (request_text h) r
      ≡ (true, record r { method = h.method; path = h.path; version = h.version })
unfolding parse_request_line
parse_request_line-request_text h r known ne no_space =
    let name = method_name h.method in
    let tail = h.path ++ (b' ' ∷ h.version) in
    rw (find_byte-Lacks b' ' name tail (method_name-Lacks h.method), parse_request_line)
      (rw
        (
          take_front (length name) name (b' ' ∷ tail) refl,
          drop_past (length name) b' ' name tail refl,
        )
        (rw (find_byte-Lacks b' ' h.path h.version no_space, find_second_space)
          (fill_request_line_lem h r known ne)))

trim_left_trimmed : (s : Bytes) → IsTrimmed s → trim_left s ≡ s
unfolding trim_left
trim_left_trimmed [] h = refl
trim_left_trimmed (c ∷ cs) h = rw h

-- A header line sets its field.
pub parse_header_line-field_text :
    (key value : Bytes) (r : HttpRequest)
    → Lacks b':' key
    → IsTrimmed value
    → parse_header_line (field_text key value) r
      ≡ (true, record r { headers = Headers.set key value r.headers })
unfolding parse_header_line
parse_header_line-field_text key value r no_colon trimmed =
    let text = b' ' ∷ value in
    let colon = find_byte-Lacks b':' key text no_colon in
    rw (colon, parse_header_line)
      (rw (
        take_front (length key) key (b':' ∷ text) refl,
        drop_past (length key) b':' key text refl,
        trim_left_trimmed value trimmed,
      ))
