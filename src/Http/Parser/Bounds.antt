-- ===== src/Http/Parser/Bounds.antt =====
-- The limits on a request body, in every state of the parser.
use c_http_1_1_server.Base.{
  ℕ, zero, suc, ◌+◌, ◌≤◌, ◌≡◌, inl, inr, refl, [], Option, some, Option-cases, eq_of_some, subst,
  ap, arith, length, length-append, Bytes,
}
use c_http_1_1_server.Protocol.Framer.{extract_line, extract_bytes, max_http_body_size}
use c_http_1_1_server.Protocol.Framer.Block.{extract_bytes_outcome}
use c_http_1_1_server.Http.Request.{HttpRequest}
use c_http_1_1_server.Http.Parser.{
  State, Machine, ParseResult, Step, continue, return, with_line, in_chunk_data, in_body,
  bytes_needed, accept_size, on_size_line, on_chunk_end, on_trailer, on_request_line, on_header,
  after_headers, step, step_in, loop, parse,
}
use c_http_1_1_server.Http.ChunkSize.{chunk_size_of}
use c_http_1_1_server.Http.RequestLines.{parse_request_line, parse_header_line}
use c_http_1_1_server.Http.Parser.Frame.{Status-cases}
use c_http_1_1_server.Http.Parser.Total.{Step-cases}

-- What a state has promised to add to the body.
abbrev reserved : State → ℕ → ℕ
reserved State.chunk_data n = n
reserved _ n = 0

-- The body and the chunk that is under way fit in 10 MB.
pub record IsBounded (m : Machine) : Type 0 where
  pub fits :
      length m.request.body + reserved m.parser.m_state m.parser.m_chunk_remaining
      ≤ max_http_body_size

abbrev StepBounded : Step → Type 0
StepBounded (continue m) = IsBounded m
StepBounded (return r m) = IsBounded m

body_fits : (m : Machine) → IsBounded m → length m.request.body ≤ max_http_body_size
body_fits m b = omega arith

-- The state is one that reserves nothing.
abbrev IsFree : State → Type 0
IsFree s = (n : ℕ) → reserved s n ≡ 0

accept_size_bounded :
    (size : ℕ) (m : Machine)
    → length m.request.body ≤ max_http_body_size
    → StepBounded (accept_size size m)
unfolding accept_size
accept_size_bounded size m h = ground arith

on_size_line_bounded :
    (line : Bytes) (m : Machine)
    → length m.request.body ≤ max_http_body_size
    → StepBounded (on_size_line line m)
unfolding on_size_line
on_size_line_bounded line m h = elim (Option-cases (chunk_size_of line)) [
  | inl e ↦ rw (e, on_size_line) (omega arith)
  | inr (size, e) ↦ rw (e, on_size_line) (accept_size_bounded size m h)
]

on_chunk_end_bounded :
    (line : Bytes) (m : Machine)
    → length m.request.body ≤ max_http_body_size
    → StepBounded (on_chunk_end line m)
unfolding on_chunk_end
on_chunk_end_bounded line m h = ground arith

on_trailer_bounded :
    (line : Bytes) (m : Machine)
    → m.parser.m_state ≡ State.trailers
    → length m.request.body ≤ max_http_body_size
    → StepBounded (on_trailer line m)
unfolding on_trailer
on_trailer_bounded line m s h = ground arith

body-parse_request_line :
    (line : Bytes) (r : HttpRequest) → (parse_request_line line r).1.body ≡ r.body
unfolding parse_request_line
body-parse_request_line line r = ground arith

body-parse_header_line :
    (line : Bytes) (r : HttpRequest) → (parse_header_line line r).1.body ≡ r.body
unfolding parse_header_line
body-parse_header_line line r = ground arith

after_headers_free : (r : HttpRequest) (n : ℕ) → reserved (after_headers r) n ≡ 0
unfolding after_headers
after_headers_free r n = ground arith

on_request_line_bounded :
    (line : Bytes) (m : Machine)
    → length m.request.body ≤ max_http_body_size
    → StepBounded (on_request_line line m)
unfolding on_request_line
on_request_line_bounded line m h = ground (arith, body-parse_request_line line m.request)

on_header_bounded :
    (line : Bytes) (m : Machine)
    → m.parser.m_state ≡ State.headers
    → length m.request.body ≤ max_http_body_size
    → StepBounded (on_header line m)
unfolding on_header
on_header_bounded line m s h = ground (
  arith,
  body-parse_header_line line m.request,
  after_headers_free m.request m.parser.m_chunk_remaining,
)

with_line_bounded :
    (next : Bytes → Machine → Step) (m : Machine)
    → IsBounded m
    → ((line : Bytes) (m' : Machine)
        → m'.parser ≡ m.parser
        → m'.request ≡ m.request
        → StepBounded (next line m'))
    → StepBounded (with_line next m)
unfolding with_line
with_line_bounded next m b keeps = elim (Status-cases (extract_line m.read_buffer []).status) [
  | inl done ↦ rw (done, with_line) (keeps _ _ refl refl)
  | inr (inl e) ↦ rw (e, with_line) (omega arith)
  | inr (inr (inl e)) ↦ rw (e, with_line) (omega arith)
  | inr (inr (inr e)) ↦ rw (e, with_line) (omega arith)
]

in_chunk_data_bounded :
    (m : Machine)
    → m.parser.m_state ≡ State.chunk_data
    → IsBounded m
    → StepBounded (in_chunk_data m)
unfolding in_chunk_data
in_chunk_data_bounded m s b =
    let n = m.parser.m_chunk_remaining in
    let promised : reserved m.parser.m_state n ≡ n = rw s in
    let f = extract_bytes m.read_buffer n [] in
    let out = extract_bytes_outcome m.read_buffer n [] in
    elim (Status-cases f.status) [
      | inl done ↦
          rw (done, in_chunk_data)
            (omega (arith, length-append m.request.body f.out, (rw done at out).1))
      | inr (inl e) ↦ rw (e, in_chunk_data) (omega arith)
      | inr (inr (inl e)) ↦ rw (e, in_chunk_data) (omega arith)
      | inr (inr (inr e)) ↦ rw (e, in_chunk_data) (omega arith)
    ]

in_body_bounded : (m : Machine) → IsBounded m → StepBounded (in_body m)
unfolding in_body
in_body_bounded m b =
    let f = extract_bytes m.read_buffer (bytes_needed m.request) m.request.body in
    let out = extract_bytes_outcome m.read_buffer (bytes_needed m.request) m.request.body in
    elim (Status-cases f.status) [
      | inl done ↦ rw (done, in_body) (omega (arith, (rw done at out).1, (rw done at out).2))
      | inr (inl e) ↦ rw (e, in_body) (rw (rw e at out).1 (omega arith))
      | inr (inr (inl e)) ↦ absurd (rw e at out)
      | inr (inr (inr e)) ↦ rw (e, in_body) (rw (rw e at out).1 (omega arith))
    ]

step_bounded :
    (s : State) (m : Machine) → m.parser.m_state ≡ s → IsBounded m → StepBounded (step_in s m)
unfolding step_in
step_bounded State.request_line m e b =
    with_line_bounded on_request_line m b
      λ line m' p r. on_request_line_bounded line m' (rw r (body_fits m b))
step_bounded State.headers m e b =
    with_line_bounded on_header m b
      λ line m' p r. on_header_bounded line m' (rw p e) (rw r (body_fits m b))
step_bounded State.body m e b = in_body_bounded m b
step_bounded State.chunk_size m e b =
    with_line_bounded on_size_line m b
      λ line m' p r. on_size_line_bounded line m' (rw r (body_fits m b))
step_bounded State.chunk_data m e b = in_chunk_data_bounded m e b
step_bounded State.chunk_crlf m e b =
    with_line_bounded on_chunk_end m b
      λ line m' p r. on_chunk_end_bounded line m' (rw r (body_fits m b))
step_bounded State.trailers m e b =
    with_line_bounded on_trailer m b
      λ line m' p r. on_trailer_bounded line m' (rw p e) (rw r (body_fits m b))
step_bounded State.complete m e b = b
step_bounded State.error m e b = b

loop-IsBounded :
    (fuel : ℕ) (m m' : Machine) (r : ParseResult)
    → IsBounded m
    → loop fuel m ≡ some (r, m')
    → IsBounded m'
unfolding loop
loop-IsBounded zero m m' r b e = cc
loop-IsBounded (suc fuel) m m' r b e = elim (Step-cases (step m)) [
  | inl (n, s) ↦
      loop-IsBounded fuel n m' r (rw s at (step_bounded m.parser.m_state m refl b))
        (rw (s, loop) at e)
  | inr (q, n, s) ↦
      let kept : IsBounded n = rw s at (step_bounded m.parser.m_state m refl b) in
      let ended : ◌≡◌ {A = Option (ParseResult × Machine)} (some (q, n)) (some (r, m')) =
        rw (s, loop) at e in
      subst IsBounded (ap (λ (p : ParseResult × Machine). p.1) (eq_of_some ended)) kept
]

-- Whatever bytes arrive and however `parse` ends, a body of the request within 10 MB stays within
-- them, and a chunk is begun only if it fits in what is left.
pub parse-IsBounded :
    (m m' : Machine) (r : ParseResult) → IsBounded m → parse m ≡ some (r, m') → IsBounded m'
unfolding parse
parse-IsBounded m m' r b e = loop-IsBounded _ m m' r b e
