-- ===== src/Http/Message/Whole.antt =====
-- Whole requests: what `parse` makes of a printed head and of the body that it announces.
use c_http_1_1_server.Base.{
  ℕ, ◌≤◌, ◌<◌, ◌≡◌, refl, sym, subst, ap, ◌∙◌, true, false, List, [], ◌∷◌, ◌++◌, arith, lt→ltb,
  some, length, append_assoc, Bytes, crlf, is_empty,
}
use c_http_1_1_server.Protocol.Framer.{max_http_body_size}
use c_http_1_1_server.Protocol.Framer.Line.{Lacks-cr-LacksCrlf}
use c_http_1_1_server.Http.Headers
use c_http_1_1_server.Http.Headers.{HttpHeaders}
use c_http_1_1_server.Http.Request
use c_http_1_1_server.Http.Request.{HttpMethod, HttpRequest}
use c_http_1_1_server.Http.Parser
use c_http_1_1_server.Http.Parser.{
  State, HttpRequestParser, Machine, ParseResult, Step, continue, return, goto, with_line,
  on_request_line, on_header, is_chunked, after_headers, in_body, bytes_needed, step_in, step,
  parse,
}
use c_http_1_1_server.Http.Parser.Rounds.{
  Runs, here, round, Runs-trans, parse-Runs, with_line-crlf, in_body_front,
}
use c_http_1_1_server.Http.Encoder.{chunked_body}
use c_http_1_1_server.Http.ChunkedBody.{chunked_body_rounds}
use c_http_1_1_server.Http.Message.{
  Head, request_text, field_text, print_fields, print_head, IsField, AllFields, IsPrintable,
  collect,
}
use c_http_1_1_server.Http.Message.Lines.{
  parse_request_line-request_text, parse_header_line-field_text,
}

abbrev machine : State → Bytes → HttpRequest → Machine
machine s buf r = record {
  parser = record { m_state = s; m_chunk_remaining = 0 };
  read_buffer = buf;
  request = r;
}

not_empty : (key text : Bytes) (c : ℕ) → is_empty (key ++ c ∷ text) ≡ false
not_empty [] text c = refl
not_empty (x ∷ xs) text c = refl

-- One field is read in one round.
field_round :
    (k v rest : Bytes) (r : HttpRequest)
    → IsField k v
    → step (machine State.headers (field_text k v ++ (crlf ++ rest)) r)
      ≡ continue (machine State.headers rest (record r { headers = Headers.set k v r.headers }))
unfolding step_in on_header
field_round k v rest r f =
    with_line-crlf on_header (machine State.headers (field_text k v ++ (crlf ++ rest)) r)
      (field_text k v) rest refl (Lacks-cr-LacksCrlf (field_text k v) f.no_cr) f.fits
    ∙ rw (not_empty k (b' ' ∷ v) b':', parse_header_line-field_text k v r f.no_colon f.trimmed)

-- All the fields and the empty line behind them.
Runs-print_fields :
    (fs : List (Bytes × Bytes)) (rest : Bytes) (r : HttpRequest)
    → AllFields fs
    → let r' = record r { headers = collect fs r.headers } in
      Runs (machine State.headers (print_fields fs ++ rest) r) (machine (after_headers r') rest r')
unfolding step_in on_header
Runs-print_fields [] rest r h =
    round
      (with_line-crlf on_header (machine State.headers (crlf ++ rest) r) [] rest refl (refl, tt)
        (omega arith))
      here
Runs-print_fields ((k, v) ∷ fs) rest r (f, h) =
    let text = append_assoc (field_text k v) (crlf ++ print_fields fs) rest in
    let set = record r { headers = Headers.set k v r.headers } in
    let r' = record set { headers = collect fs set.headers } in
    subst (λ t. Runs (machine State.headers t r) (machine (after_headers r') rest r')) (sym text)
      (round (field_round k v (print_fields fs ++ rest) r f) (Runs-print_fields fs rest set h))

-- The request that a printed head stands for.
abbrev pub head_request : Head → HttpRequest
head_request h = record {
  method = h.method;
  path = h.path;
  version = h.version;
  headers = collect h.fields Headers.empty;
  body = [];
}

request_line_round :
    (h : Head) (rest : Bytes)
    → IsPrintable h
    → step (machine State.request_line (request_text h ++ (crlf ++ rest)) Request.fresh)
      ≡ continue (
          machine State.headers rest
            (record Request.fresh { method = h.method; path = h.path; version = h.version }))
unfolding step_in on_request_line
request_line_round h rest p =
    with_line-crlf on_request_line
      (machine State.request_line (request_text h ++ (crlf ++ rest)) Request.fresh) (request_text h)
      rest refl (Lacks-cr-LacksCrlf (request_text h) p.no_cr) p.fits
    ∙ rw (parse_request_line-request_text h Request.fresh p.known p.path_ne_nil p.no_space)

Runs-print_head :
    (h : Head) (rest : Bytes)
    → IsPrintable h
    → Runs
        (machine State.request_line (print_head h ++ rest) Request.fresh)
        (machine (after_headers (head_request h)) rest (head_request h))
Runs-print_head h rest p =
    let text = append_assoc (request_text h) (crlf ++ print_fields h.fields) rest in
    let line = record Request.fresh { method = h.method; path = h.path; version = h.version } in
    subst
      (λ t.
        Runs (machine State.request_line t Request.fresh)
          (machine (after_headers (head_request h)) rest (head_request h)))
      (sym text)
      (round (request_line_round h (print_fields h.fields ++ rest) p)
        (Runs-print_fields h.fields rest line p.fields))

state_complete :
    (r : HttpRequest)
    → is_chunked r ≡ false
    → Headers.get_content_length r.headers ≡ 0
    → after_headers r ≡ State.complete
unfolding after_headers
state_complete r plain len = rw (plain, len)

state_body :
    (r : HttpRequest)
    → is_chunked r ≡ false
    → 0 < Headers.get_content_length r.headers
    → after_headers r ≡ State.body
unfolding after_headers
state_body r plain len = rw (plain, lt→ltb _ _ len)

state_chunked : (r : HttpRequest) → is_chunked r ≡ true → after_headers r ≡ State.chunk_size
unfolding after_headers
state_chunked r chunked = rw chunked

-- Behind the headers of a request that is not chunked and whose `Content-Length` is the size of the
-- bytes that follow: those bytes become the body.
after_head :
    (h : Head) (body rest : Bytes)
    → is_chunked (head_request h) ≡ false
    → Headers.get_content_length (head_request h).headers ≡ length body
    → length body ≤ max_http_body_size
    → step (machine (after_headers (head_request h)) (body ++ rest) (head_request h))
      ≡ return ParseResult.success
          (machine State.complete rest (record (head_request h) { body = body }))
unfolding step_in
after_head h [] rest plain len fits =
    ap (λ s. step (machine s rest (head_request h))) (state_complete (head_request h) plain len)
after_head h (b ∷ bs) rest plain len fits =
    let r = head_request h in
    ap (λ s. step (machine s (b ∷ (bs ++ rest)) r)) (state_body r plain (omega arith))
    ∙ in_body_front (machine State.body (b ∷ (bs ++ rest)) r) (b ∷ bs) rest refl (omega arith) fits

-- A printed request with a `Content-Length` body is read back whole: `parse` ends with `Success` in
-- state `Complete`; method, path, version and headers are those printed (a later field replaces an
-- earlier one of that name), the body is the announced bytes, and what follows stays in the buffer.
-- With no body the announced length is 0, or no length is given.
pub parse-print_head :
    (h : Head) (body rest : Bytes)
    → IsPrintable h
    → is_chunked (head_request h) ≡ false
    → Headers.get_content_length (head_request h).headers ≡ length body
    → length body ≤ max_http_body_size
    → parse (record {
      parser = Parser.fresh;
      read_buffer = print_head h ++ (body ++ rest);
      request = Request.fresh;
    })
      ≡ some (
        ParseResult.success,
        record {
          parser = record { m_state = State.complete; m_chunk_remaining = 0 };
          read_buffer = rest;
          request = record (head_request h) { body = body };
        },
      )
parse-print_head h body rest p plain len fits =
    parse-Runs ParseResult.success (Runs-print_head h (body ++ rest) p)
      (after_head h body rest plain len fits)

-- A printed request with a chunked body is read back whole in the same way, also where a
-- `Content-Length` is given beside it.
pub parse-print_head-chunked :
    (h : Head) (body rest : Bytes)
    → IsPrintable h
    → is_chunked (head_request h) ≡ true
    → length body ≤ max_http_body_size
    → (k : ℕ) × (parse (record {
      parser = Parser.fresh;
      read_buffer = print_head h ++ (chunked_body body ++ rest);
      request = Request.fresh;
    })
        ≡ some (
          ParseResult.success,
          record {
            parser = record { m_state = State.complete; m_chunk_remaining = k };
            read_buffer = rest;
            request = record (head_request h) { body = body };
          },
        ))
parse-print_head-chunked h body rest p chunked fits =
    let r = head_request h in
    let (k, m, runs, last) = chunked_body_rounds 0 body rest r (omega arith) in
    let start = ap (λ s. machine s (chunked_body body ++ rest) r) (state_chunked r chunked) in
    let head =
      subst
        (Runs
          (machine State.request_line (print_head h ++ (chunked_body body ++ rest)) Request.fresh))
        start (Runs-print_head h (chunked_body body ++ rest) p) in
    (k, parse-Runs ParseResult.success (Runs-trans head runs) last)
