-- ===== src/Http/Parser/Suffix.antt =====
-- What the parser leaves of the buffer.
use c_http_1_1_server.Base.{
  ℕ, zero, suc, ◌≤◌, ◌≡◌, inl, inr, refl, sym, ap, ◌∙◌, subst, [], ◌∷◌, ◌++◌, append_assoc, Option,
  some, eq_of_some, arith, length, length-append, Bytes,
}
use c_http_1_1_server.Protocol.Framer.{extract_line, extract_bytes}
use c_http_1_1_server.Protocol.Framer.Line.{extract_line_outcome}
use c_http_1_1_server.Protocol.Framer.Refuse.{ShortLines}
use c_http_1_1_server.Protocol.Framer.Block.{extract_bytes_outcome}
use c_http_1_1_server.Http.Parser.{
  State, Machine, ParseResult, Step, continue, return, with_line, in_chunk_data, in_body,
  bytes_needed, accept_size, on_size_line, on_chunk_end, on_trailer, on_request_line, on_header,
  step, step_in, loop, parse,
}
use c_http_1_1_server.Http.Parser.Frame.{Status-cases}
use c_http_1_1_server.Http.Parser.Total.{Step-cases}

-- The end of the bytes.
abbrev pub Suffix : Bytes → Bytes → Type 0
Suffix small big = (taken : Bytes) × (big ≡ taken ++ small)

pub Suffix-trans : (a b c : Bytes) → Suffix a b → Suffix b c → Suffix a c
Suffix-trans a b c (xs, e) (ys, f) = (ys ++ xs, f ∙ ap (◌++◌ ys) e ∙ sym (append_assoc ys xs a))

pub Suffix-append : (a b more : Bytes) → Suffix a b → Suffix (a ++ more) (b ++ more)
Suffix-append a b more (xs, e) = (xs, ap (λ z. z ++ more) e ∙ append_assoc xs a more)

pub length-Suffix : (a b : Bytes) → Suffix a b → length a ≤ length b
length-Suffix a b (xs, e) = omega (arith, ap length e, length-append xs a)

pub ShortLines-Suffix : (small big : Bytes) → Suffix small big → ShortLines big → ShortLines small
ShortLines-Suffix small big (xs, e) short before part after f lacks =
    short (xs ++ before) part after
      (e ∙ ap (◌++◌ xs) f ∙ sym (append_assoc xs before (part ++ after))) lacks

-- The buffer that a round leaves.
abbrev pub left_by : Step → Bytes
left_by (continue m) = m.read_buffer
left_by (return r m) = m.read_buffer

abbrev pub Keeps : (Bytes → Machine → Step) → Type 0
Keeps next = (line : Bytes) (m : Machine) → left_by (next line m) ≡ m.read_buffer

on_size_line-Keeps : Keeps on_size_line
unfolding on_size_line accept_size
on_size_line-Keeps line m = ground arith

on_chunk_end-Keeps : Keeps on_chunk_end
unfolding on_chunk_end
on_chunk_end-Keeps line m = ground arith

on_trailer-Keeps : Keeps on_trailer
unfolding on_trailer
on_trailer-Keeps line m = ground arith

pub on_request_line-Keeps : Keeps on_request_line
unfolding on_request_line
on_request_line-Keeps line m = ground arith

on_header-Keeps : Keeps on_header
unfolding on_header
on_header-Keeps line m = ground arith

with_line-Suffix :
    (next : Bytes → Machine → Step) (m : Machine)
    → Keeps next
    → Suffix (left_by (with_line next m)) m.read_buffer
unfolding with_line
with_line-Suffix next m keeps =
    let out = extract_line_outcome m.read_buffer [] in
    let r = extract_line m.read_buffer [] in
    elim (Status-cases r.status) [
      | inl done ↦
          let kept = keeps r.out (record m { read_buffer = r.read_buffer }) in
          rw (done, with_line)
            (
              r.out ++ b'\r' ∷ b'\n' ∷ [],
              (rw done at out).0
                  ∙ sym (append_assoc r.out (b'\r' ∷ b'\n' ∷ []) r.read_buffer)
                  ∙ ap (◌++◌ (r.out ++ b'\r' ∷ b'\n' ∷ [])) (sym kept),
            )
      | inr (inl e) ↦ rw (e, with_line) ([], sym (rw e at out).0)
      | inr (inr (inl e)) ↦ rw (e, with_line) ([], sym (rw e at out).0)
      | inr (inr (inr e)) ↦ absurd (rw e at out)
    ]

in_chunk_data-Suffix : (m : Machine) → Suffix (left_by (in_chunk_data m)) m.read_buffer
unfolding in_chunk_data
in_chunk_data-Suffix m =
    let n = m.parser.m_chunk_remaining in
    let out = extract_bytes_outcome m.read_buffer n [] in
    let r = extract_bytes m.read_buffer n [] in
    elim (Status-cases r.status) [
      | inl done ↦ rw (done, in_chunk_data) (r.out, (rw done at out).0)
      | inr (inl e) ↦ rw (e, in_chunk_data) ([], sym (rw e at out).0)
      | inr (inr (inl e)) ↦ absurd (rw e at out)
      | inr (inr (inr e)) ↦ rw (e, in_chunk_data) ([], sym (rw e at out).0)
    ]

in_body-Suffix : (m : Machine) → Suffix (left_by (in_body m)) m.read_buffer
unfolding in_body
in_body-Suffix m =
    let n = bytes_needed m.request in
    let out = extract_bytes_outcome m.read_buffer n m.request.body in
    let r = extract_bytes m.read_buffer n m.request.body in
    elim (Status-cases r.status) [
      | inl done ↦ rw (done, in_body) (r.out, (rw done at out).0)
      | inr (inl e) ↦ rw (e, in_body) ([], sym (rw e at out).0)
      | inr (inr (inl e)) ↦ absurd (rw e at out)
      | inr (inr (inr e)) ↦ rw (e, in_body) ([], sym (rw e at out).0)
    ]

step-Suffix : (s : State) (m : Machine) → Suffix (left_by (step_in s m)) m.read_buffer
unfolding step_in
step-Suffix State.request_line m = with_line-Suffix _ m on_request_line-Keeps
step-Suffix State.headers m = with_line-Suffix _ m on_header-Keeps
step-Suffix State.body m = in_body-Suffix m
step-Suffix State.chunk_size m = with_line-Suffix _ m on_size_line-Keeps
step-Suffix State.chunk_data m = in_chunk_data-Suffix m
step-Suffix State.chunk_crlf m = with_line-Suffix _ m on_chunk_end-Keeps
step-Suffix State.trailers m = with_line-Suffix _ m on_trailer-Keeps
step-Suffix State.complete m = ([], refl)
step-Suffix State.error m = ([], refl)

pub continue-Suffix : (m n : Machine) → step m ≡ continue n → Suffix n.read_buffer m.read_buffer
continue-Suffix m n e =
    subst (λ b. Suffix b m.read_buffer) (ap left_by e) (step-Suffix m.parser.m_state m)

pub loop-Suffix :
    (fuel : ℕ) (m m' : Machine) (r : ParseResult)
    → loop fuel m ≡ some (r, m')
    → Suffix m'.read_buffer m.read_buffer
unfolding loop
loop-Suffix zero m m' r e = cc
loop-Suffix (suc fuel) m m' r e = elim (Step-cases (step m)) [
  | inl (n, s) ↦
      Suffix-trans m'.read_buffer n.read_buffer m.read_buffer
        (loop-Suffix fuel n m' r (rw (s, loop) at e)) (continue-Suffix m n s)
  | inr (q, n, s) ↦
      let ended : ◌≡◌ {A = Option (ParseResult × Machine)} (some (q, n)) (some (r, m')) =
        rw (s, loop) at e in
      subst (λ b. Suffix b m.read_buffer)
        (ap left_by s ∙ ap (λ (p : ParseResult × Machine). p.1.read_buffer) (eq_of_some ended))
        (step-Suffix m.parser.m_state m)
]

-- What `parse` leaves in the buffer is the end of what was there.
pub parse-Suffix :
    (m m' : Machine) (r : ParseResult)
    → parse m ≡ some (r, m')
    → Suffix m'.read_buffer m.read_buffer
unfolding parse
parse-Suffix m m' r e = loop-Suffix _ m m' r e
