-- ===== src/Http/Parser/Resume.antt =====
-- One round of the loop, when more bytes are in the buffer.
use c_http_1_1_server.Base.{◌≡◌, ◌≢◌, ◌⊎◌, inl, inr, refl, ap, ◌∙◌, [], ◌++◌, arith, Bytes}
use c_http_1_1_server.Protocol.Framer.{extract_line, extract_bytes}
use c_http_1_1_server.Protocol.Framer.Line.{extract_line_outcome, extract_line-append}
use c_http_1_1_server.Protocol.Framer.Block.{extract_bytes_outcome, extract_bytes-append}
use c_http_1_1_server.Http.Parser.{
  State, Machine, ParseResult, Step, continue, return, after_line, after_chunk, after_body,
  with_line, in_chunk_data, in_body, bytes_needed, accept_size, on_size_line, on_chunk_end,
  on_trailer, on_request_line, on_header, step_in,
}
use c_http_1_1_server.Http.Parser.Frame.{Status-cases}

-- The socket has delivered more bytes.
abbrev pub append : Machine → Bytes → Machine
append m more = record m { read_buffer = m.read_buffer ++ more }

abbrev pub append_step : Step → Bytes → Step
append_step (continue m) more = continue (append m more)
append_step (return r m) more = return r (append m more)

abbrev pub IsFailure : Step → Type 0
IsFailure (continue m) = ⊥
IsFailure (return r m) = r ≡ ParseResult.error

-- The round does not end with `Incomplete`.
abbrev pub IsActive : Step → Type 0
IsActive (continue m) = Unit {0}
IsActive (return r m) = r ≢ ParseResult.incomplete

-- A round waits, fails, or does the same whatever comes behind the bytes that it takes.
abbrev pub Resumes : (Machine → Step) → Machine → Bytes → Type 0
Resumes f m more =
    (f m ≡ return ParseResult.incomplete m)
    ⊎ IsFailure (f m)
    ⊎ ((f (append m more) ≡ append_step (f m) more) × IsActive (f m))

abbrev pub Ignores : (Bytes → Machine → Step) → Type 0
Ignores next =
    (line : Bytes) (m : Machine) (more : Bytes)
    → (next line (append m more) ≡ append_step (next line m) more) × IsActive (next line m)

pub on_size_line-Ignores : Ignores on_size_line
unfolding on_size_line accept_size
on_size_line-Ignores line m more = ground arith

pub on_chunk_end-Ignores : Ignores on_chunk_end
unfolding on_chunk_end
on_chunk_end-Ignores line m more = ground arith

pub on_trailer-Ignores : Ignores on_trailer
unfolding on_trailer
on_trailer-Ignores line m more = ground arith

pub on_request_line-Ignores : Ignores on_request_line
unfolding on_request_line
on_request_line-Ignores line m more = ground arith

pub on_header-Ignores : Ignores on_header
unfolding on_header
on_header-Ignores line m more = ground arith

with_line-Resumes :
    (next : Bytes → Machine → Step) (m : Machine) (more : Bytes)
    → Ignores next
    → Resumes (with_line next) m more
unfolding with_line
with_line-Resumes next m more ignores =
    let out = extract_line_outcome m.read_buffer [] in
    elim (Status-cases (extract_line m.read_buffer []).status) [
      | inl done ↦ inr (
          inr (
            ap (after_line next (append m more)) (extract_line-append m.read_buffer more [] done)
                ∙ rw (done, with_line) (ignores _ _ more).0,
            rw (done, with_line)
                (ignores _ (record m { read_buffer = (extract_line m.read_buffer []).read_buffer })
                  more).1,
          ))
      | inr (inl wait) ↦ inl (rw (wait, (rw wait at out).0, with_line))
      | inr (inr (inl e)) ↦ inr (inl (rw (e, with_line) refl))
      | inr (inr (inr e)) ↦ inr (inl (rw (e, with_line) refl))
    ]

in_chunk_data-Resumes : (m : Machine) (more : Bytes) → Resumes in_chunk_data m more
unfolding in_chunk_data
in_chunk_data-Resumes m more =
    let n = m.parser.m_chunk_remaining in
    let out = extract_bytes_outcome m.read_buffer n [] in
    elim (Status-cases (extract_bytes m.read_buffer n []).status) [
      | inl done ↦ inr (
          inr (
            ap (after_chunk (append m more)) (extract_bytes-append m.read_buffer more n [] done)
                ∙ rw (done, in_chunk_data),
            rw (done, in_chunk_data) tt,
          ))
      | inr (inl wait) ↦ inl (rw (wait, (rw wait at out).0, in_chunk_data))
      | inr (inr (inl e)) ↦ inr (inl (rw (e, in_chunk_data) refl))
      | inr (inr (inr e)) ↦ inr (inl (rw (e, in_chunk_data) refl))
    ]

in_body-Resumes : (m : Machine) (more : Bytes) → Resumes in_body m more
unfolding in_body
in_body-Resumes m more =
    let n = bytes_needed m.request in
    let out = extract_bytes_outcome m.read_buffer n m.request.body in
    elim (Status-cases (extract_bytes m.read_buffer n m.request.body).status) [
      | inl done ↦ inr (
          inr (
            ap (after_body (append m more))
                  (extract_bytes-append m.read_buffer more n m.request.body done)
                ∙ rw (done, in_body),
            rw (done, in_body) (λ e. cc),
          ))
      | inr (inl wait) ↦ inl (rw (wait, (rw wait at out).0, (rw wait at out).1, in_body))
      | inr (inr (inl e)) ↦ inr (inl (rw (e, in_body) refl))
      | inr (inr (inr e)) ↦ inr (inl (rw (e, in_body) refl))
    ]

pub step-Resumes :
    (s : State) (m : Machine) (more : Bytes) → m.parser.m_state ≡ s → Resumes (step_in s) m more
unfolding step_in
step-Resumes State.request_line m more e = with_line-Resumes _ m more on_request_line-Ignores
step-Resumes State.headers m more e = with_line-Resumes _ m more on_header-Ignores
step-Resumes State.body m more e = in_body-Resumes m more
step-Resumes State.chunk_size m more e = with_line-Resumes _ m more on_size_line-Ignores
step-Resumes State.chunk_data m more e = in_chunk_data-Resumes m more
step-Resumes State.chunk_crlf m more e = with_line-Resumes _ m more on_chunk_end-Ignores
step-Resumes State.trailers m more e = with_line-Resumes _ m more on_trailer-Ignores
step-Resumes State.complete m more e = inr (inr (refl, λ x. cc))
step-Resumes State.error m more e = inr (inl refl)
