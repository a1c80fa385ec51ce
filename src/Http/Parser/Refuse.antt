-- ===== src/Http/Parser/Refuse.antt =====
-- What the parser refuses, it refuses also when more bytes are in the buffer; and it takes a request
-- only with bytes.
use c_http_1_1_server.Base.{
  ℕ, zero, suc, ◌+◌, ◌≤◌, ◌<◌, ◌≡◌, inl, inr, refl, sym, ap, ◌∙◌, [], ◌++◌, Option, some,
  eq_of_some, arith, length, Bytes,
}
use c_http_1_1_server.Protocol.Framer.{extract_line, extract_bytes}
use c_http_1_1_server.Protocol.Framer.Line.{extract_line_outcome, extract_line-append}
use c_http_1_1_server.Protocol.Framer.Block.{extract_bytes_outcome}
use c_http_1_1_server.Protocol.Framer.Refuse.{
  ShortLines, extract_line-refused, extract_bytes-refused,
}
use c_http_1_1_server.Http.Parser.{
  State, Machine, ParseResult, Step, continue, return, after_line, with_line, in_chunk_data,
  in_body, bytes_needed, on_request_line, step, step_in, loop, parse,
}
use c_http_1_1_server.Http.Parser.Frame.{Status-cases, line_shorter}
use c_http_1_1_server.Http.Parser.Total.{measure, step_shrinks, Step-cases, enough}
use c_http_1_1_server.Http.Parser.Resume.{
  append, append_step, IsFailure, Ignores, step-Resumes, on_size_line-Ignores, on_chunk_end-Ignores,
  on_trailer-Ignores, on_request_line-Ignores, on_header-Ignores,
}
use c_http_1_1_server.Http.Parser.Suffix.{
  ShortLines-Suffix, Suffix-append, left_by, continue-Suffix, loop-Suffix, length-Suffix,
  on_request_line-Keeps,
}

append-IsFailure : (s : Step) (more : Bytes) → IsFailure s → IsFailure (append_step s more)
append-IsFailure (continue m) more h = h
append-IsFailure (return r m) more h = h

-- A round that fails does so with more bytes too.
abbrev FailsToo : (Machine → Step) → Type 0
FailsToo f =
    (m : Machine) (more : Bytes)
    → ShortLines (m.read_buffer ++ more)
    → IsFailure (f m)
    → IsFailure (f (append m more))

with_line-FailsToo : (next : Bytes → Machine → Step) → Ignores next → FailsToo (with_line next)
unfolding with_line
with_line-FailsToo next ignores m more short h =
    let r = extract_line m.read_buffer [] in
    elim (Status-cases r.status) [
      | inl done ↦
          let m' = record m { read_buffer = r.read_buffer } in
          let failed : IsFailure (next r.out m') = rw (done, with_line) at h in
          let same : with_line next (append m more) ≡ append_step (next r.out m') more =
            ap (after_line next (append m more)) (extract_line-append m.read_buffer more [] done)
            ∙ (ignores r.out m' more).0 in
          rw same (append-IsFailure (next r.out m') more failed)
      | inr (inl e) ↦ cc (rw (e, with_line) at h)
      | inr (inr (inl e)) ↦ rw (extract_line-refused m.read_buffer more [] short e, with_line) refl
      | inr (inr (inr e)) ↦ absurd (rw e at (extract_line_outcome m.read_buffer []))
    ]

in_chunk_data-FailsToo : FailsToo in_chunk_data
unfolding in_chunk_data
in_chunk_data-FailsToo m more short h =
    let n = m.parser.m_chunk_remaining in
    elim (Status-cases (extract_bytes m.read_buffer n []).status) [
      | inl done ↦ absurd (rw (done, in_chunk_data) at h)
      | inr (inl e) ↦ cc (rw (e, in_chunk_data) at h)
      | inr (inr (inl e)) ↦ absurd (rw e at (extract_bytes_outcome m.read_buffer n []))
      | inr (inr (inr e)) ↦ rw (extract_bytes-refused m.read_buffer more n [] e, in_chunk_data) refl
    ]

in_body-FailsToo : FailsToo in_body
unfolding in_body
in_body-FailsToo m more short h =
    let n = bytes_needed m.request in
    elim (Status-cases (extract_bytes m.read_buffer n m.request.body).status) [
      | inl done ↦ cc (rw (done, in_body) at h)
      | inr (inl e) ↦ cc (rw (e, in_body) at h)
      | inr (inr (inl e)) ↦ absurd (rw e at (extract_bytes_outcome m.read_buffer n m.request.body))
      | inr (inr (inr e)) ↦
          rw (extract_bytes-refused m.read_buffer more n m.request.body e, in_body) refl
    ]

step-FailsToo : (s : State) → FailsToo (step_in s)
unfolding step_in
step-FailsToo State.request_line = with_line-FailsToo _ on_request_line-Ignores
step-FailsToo State.headers = with_line-FailsToo _ on_header-Ignores
step-FailsToo State.body = in_body-FailsToo
step-FailsToo State.chunk_size = with_line-FailsToo _ on_size_line-Ignores
step-FailsToo State.chunk_data = in_chunk_data-FailsToo
step-FailsToo State.chunk_crlf = with_line-FailsToo _ on_chunk_end-Ignores
step-FailsToo State.trailers = with_line-FailsToo _ on_trailer-Ignores
step-FailsToo State.complete = λ m more short h. h
step-FailsToo State.error = λ m more short h. h

-- A run that fails.
abbrev Fails : Option (ParseResult × Machine) → Type 0
Fails o = (m : Machine) × (o ≡ some (ParseResult.error, m))

loop-failed : (g : ℕ) (m : Machine) → measure m < g → IsFailure (step m) → Fails (loop g m)
unfolding loop
loop-failed zero m k h = absurd (omega arith)
loop-failed (suc g) m k h = elim (Step-cases (step m)) [
  | inl (n, s) ↦ absurd (rw s at h)
  | inr (q, n, s) ↦
      let bad : q ≡ ParseResult.error = rw s at h in (n, rw (s, loop) (ap (λ r. some (r, n)) bad))
]

loop-Fails :
    (fuel g : ℕ) (m m' : Machine) (more : Bytes)
    → loop fuel m ≡ some (ParseResult.error, m')
    → measure (append m more) < g
    → ShortLines (m.read_buffer ++ more)
    → Fails (loop g (append m more))
unfolding loop
loop-Fails zero g m m' more e k short = cc
loop-Fails (suc fuel) zero m m' more e k short = absurd (omega arith)
loop-Fails (suc fuel) (suc g) m m' more e k short = elim (Step-cases (step m)) [
  | inl (n, s) ↦ elim (step-Resumes m.parser.m_state m more refl) [
    | inl wait ↦ cc
    | inr (inl bad) ↦ absurd (rw s at bad)
    | inr (inr (same, _)) ↦
        let go : step (append m more) ≡ continue (append n more) = rw s at same in
        let less = step_shrinks m.parser.m_state (append m more) (append n more) refl go in
        let shorter = Suffix-append n.read_buffer m.read_buffer more (continue-Suffix m n s) in
        rw (go, loop)
          (loop-Fails fuel g n m' more (rw (s, loop) at e) (omega arith)
            (ShortLines-Suffix _ _ shorter short))
  ]
  | inr (q, n, s) ↦
      let ended : ◌≡◌ {A = Option (ParseResult × Machine)} (some (q, n))
          (some (ParseResult.error, m')) =
        rw (s, loop) at e in
      let bad : q ≡ ParseResult.error =
        ap (λ (p : ParseResult × Machine). p.0) (eq_of_some ended) in
      loop-failed (suc g) (append m more) k (step-FailsToo m.parser.m_state m more short (rw s bad))
]

-- What is refused in pieces is refused as a whole, if no line of the bytes is over 8 KB.
pub parse-error-append :
    (m m' : Machine) (more : Bytes)
    → parse m ≡ some (ParseResult.error, m')
    → ShortLines (m.read_buffer ++ more)
    → (n : Machine) × (parse (append m more) ≡ some (ParseResult.error, n))
unfolding parse
parse-error-append m m' more e short = loop-Fails _ _ m m' more e (enough (append m more)) short

on_request_line-goes_on :
    (line : Bytes) (m m' : Machine) → on_request_line line m ≡ return ParseResult.success m' → ⊥
unfolding on_request_line
on_request_line-goes_on line m m' h = ground arith

-- The first line of a request is followed by another round, with two bytes less at least.
first_continue :
    (m n : Machine)
    → with_line on_request_line m ≡ continue n
    → length n.read_buffer + 2 ≤ length m.read_buffer
unfolding with_line
first_continue m n h =
    let r = extract_line m.read_buffer [] in
    elim (Status-cases r.status) [
      | inl done ↦
          let e : on_request_line r.out (record m { read_buffer = r.read_buffer }) ≡ continue n =
            rw (done, with_line) at h in
          let kept =
            ap left_by (sym e)
            ∙ on_request_line-Keeps r.out (record m { read_buffer = r.read_buffer }) in
          omega (arith, line_shorter m.read_buffer done, ap length kept)
      | inr (inl e) ↦ cc (rw (e, with_line) at h)
      | inr (inr (inl e)) ↦ cc (rw (e, with_line) at h)
      | inr (inr (inr e)) ↦ cc (rw (e, with_line) at h)
    ]

first_return : (m n : Machine) → with_line on_request_line m ≡ return ParseResult.success n → ⊥
unfolding with_line
first_return m n h =
    let r = extract_line m.read_buffer [] in
    elim (Status-cases r.status) [
      | inl done ↦
          on_request_line-goes_on r.out (record m { read_buffer = r.read_buffer }) n
            (rw (done, with_line) at h)
      | inr (inl e) ↦ cc (rw (e, with_line) at h)
      | inr (inr (inl e)) ↦ cc (rw (e, with_line) at h)
      | inr (inr (inr e)) ↦ cc (rw (e, with_line) at h)
    ]

step_first :
    (m : Machine) → m.parser.m_state ≡ State.request_line → step m ≡ with_line on_request_line m
unfolding step_in
step_first m first = ap (λ s. step_in s m) first

loop-shorter :
    (fuel : ℕ) (m m' : Machine)
    → m.parser.m_state ≡ State.request_line
    → loop fuel m ≡ some (ParseResult.success, m')
    → length m'.read_buffer + 2 ≤ length m.read_buffer
unfolding loop
loop-shorter zero m m' first e = cc
loop-shorter (suc fuel) m m' first e = elim (Step-cases (step m)) [
  | inl (n, s) ↦
      let others = loop-Suffix fuel n m' ParseResult.success (rw (s, loop) at e) in
      omega (
        arith,
        first_continue m n (sym (step_first m first) ∙ s),
        length-Suffix m'.read_buffer n.read_buffer others,
      )
  | inr (q, n, s) ↦
      let ended : ◌≡◌ {A = Option (ParseResult × Machine)} (some (q, n))
          (some (ParseResult.success, m')) =
        rw (s, loop) at e in
      let good : q ≡ ParseResult.success =
        ap (λ (p : ParseResult × Machine). p.0) (eq_of_some ended) in
      absurd (first_return m n (sym (step_first m first) ∙ s ∙ ap (λ r. return r n) good))
]

-- A request takes two bytes at least, where nothing of it was read before.
pub parse-success-shorter :
    (m m' : Machine)
    → m.parser.m_state ≡ State.request_line
    → parse m ≡ some (ParseResult.success, m')
    → length m'.read_buffer + 2 ≤ length m.read_buffer
unfolding parse
parse-success-shorter m m' first e = loop-shorter _ m m' first e
