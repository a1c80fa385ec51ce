-- ===== src/Http/Parser/Total.antt =====
-- The loop of `parse` ends: each round that goes on leaves less to do.
use c_http_1_1_server.Base.{
  ℕ, zero, suc, ◌+◌, ◌*◌, ◌≤◌, ◌<◌, ◌≡◌, ◌≢◌, ◌⊎◌, inl, inr, refl, ap, [], some, arith, length,
  Bytes,
}
use c_http_1_1_server.Protocol.Framer.{extract_line, extract_bytes}
use c_http_1_1_server.Http.Parser.{
  State, Machine, ParseResult, Step, continue, return, with_line, in_chunk_data, in_body,
  accept_size, on_size_line, on_chunk_end, on_trailer, on_request_line, on_header, step, step_in,
  loop, parse,
}
use c_http_1_1_server.Http.Parser.Frame.{Status-cases, line_shorter, block_not_longer}

-- The one round that need not take a byte is the one that ends a chunk's data.
abbrev pending : State → ℕ
pending State.chunk_data = 1
pending _ = 0

abbrev pub measure : Machine → ℕ
measure m = 2 * length m.read_buffer + pending m.parser.m_state

abbrev KeepsBuffer : (Bytes → Machine → Step) → Type 0
KeepsBuffer next =
    (line : Bytes) (m m' : Machine) → next line m ≡ continue m' → m'.read_buffer ≡ m.read_buffer

on_size_line_keeps : KeepsBuffer on_size_line
unfolding on_size_line accept_size
on_size_line_keeps line m m' h = ground arith

on_chunk_end_keeps : KeepsBuffer on_chunk_end
unfolding on_chunk_end
on_chunk_end_keeps line m m' h = ground arith

on_trailer_keeps : KeepsBuffer on_trailer
unfolding on_trailer
on_trailer_keeps line m m' h = ground arith

on_request_line_keeps : KeepsBuffer on_request_line
unfolding on_request_line
on_request_line_keeps line m m' h = ground arith

on_header_keeps : KeepsBuffer on_header
unfolding on_header
on_header_keeps line m m' h = ground arith

pending_le : (s : State) → pending s ≤ 1
pending_le State.chunk_data = omega arith
pending_le _ = omega arith

with_line_shrinks :
    (next : Bytes → Machine → Step) (m m' : Machine)
    → KeepsBuffer next
    → with_line next m ≡ continue m'
    → measure m' < measure m
unfolding with_line
with_line_shrinks next m m' keeps h = elim (Status-cases (extract_line m.read_buffer []).status) [
  | inl done ↦
      let e = rw (done, with_line) at h in
      omega (
        arith,
        line_shorter m.read_buffer done,
        ap length (keeps _ _ _ e),
        pending_le m'.parser.m_state,
      )
  | inr (inl e) ↦ cc (rw (e, with_line) at h)
  | inr (inr (inl e)) ↦ cc (rw (e, with_line) at h)
  | inr (inr (inr e)) ↦ cc (rw (e, with_line) at h)
]

in_chunk_data_shrinks :
    (m m' : Machine)
    → m.parser.m_state ≡ State.chunk_data
    → in_chunk_data m ≡ continue m'
    → measure m' < measure m
unfolding in_chunk_data
in_chunk_data_shrinks m m' s h =
    let n = m.parser.m_chunk_remaining in
    let here : pending m.parser.m_state ≡ 1 = rw s in
    elim (Status-cases (extract_bytes m.read_buffer n []).status) [
      | inl done ↦
          let e : continue _ ≡ continue m' = rw (done, in_chunk_data) at h in
          let state : pending m'.parser.m_state ≡ 0 = ground arith in
          let buffer : m'.read_buffer ≡ (extract_bytes m.read_buffer n []).read_buffer =
            ground arith in
          omega (arith, block_not_longer m.read_buffer n [] done, ap length buffer)
      | inr (inl e) ↦ cc (rw (e, in_chunk_data) at h)
      | inr (inr (inl e)) ↦ cc (rw (e, in_chunk_data) at h)
      | inr (inr (inr e)) ↦ cc (rw (e, in_chunk_data) at h)
    ]

in_body_returns : (m m' : Machine) → in_body m ≢ continue m'
unfolding in_body
in_body_returns m m' h = ground arith

-- Every round that goes on makes the measure smaller.
pub step_shrinks :
    (s : State) (m m' : Machine)
    → m.parser.m_state ≡ s
    → step_in s m ≡ continue m'
    → measure m' < measure m
unfolding step_in
step_shrinks State.request_line m m' s h = with_line_shrinks _ m m' on_request_line_keeps h
step_shrinks State.headers m m' s h = with_line_shrinks _ m m' on_header_keeps h
step_shrinks State.body m m' s h = absurd (in_body_returns m m' h)
step_shrinks State.chunk_size m m' s h = with_line_shrinks _ m m' on_size_line_keeps h
step_shrinks State.chunk_data m m' s h = in_chunk_data_shrinks m m' s h
step_shrinks State.chunk_crlf m m' s h = with_line_shrinks _ m m' on_chunk_end_keeps h
step_shrinks State.trailers m m' s h = with_line_shrinks _ m m' on_trailer_keeps h
step_shrinks State.complete m m' s h = cc
step_shrinks State.error m m' s h = cc

pub Step-cases :
    (s : Step)
    → ((m : Machine) × (s ≡ continue m)) ⊎ ((r : ParseResult) × (m : Machine) × (s ≡ return r m))
Step-cases (continue m) = inl (m, refl)
Step-cases (return r m) = inr (r, m, refl)

pub loop_total :
    (fuel : ℕ) (m : Machine)
    → measure m < fuel
    → (r : ParseResult) × (m' : Machine) × (loop fuel m ≡ some (r, m'))
unfolding loop
loop_total zero m h = absurd (omega arith)
loop_total (suc fuel) m h = elim (Step-cases (step m)) [
  | inl (m', e) ↦
      rw (e, loop) (loop_total fuel m' (omega (arith, step_shrinks m.parser.m_state m m' refl e)))
  | inr (r, m', e) ↦ (r, m', rw (e, loop))
]

-- More fuel than the measure makes no difference.
pub loop_fuel : (f g : ℕ) (m : Machine) → measure m < f → measure m < g → loop f m ≡ loop g m
unfolding loop
loop_fuel zero g m hf hg = absurd (omega arith)
loop_fuel (suc f) zero m hf hg = absurd (omega arith)
loop_fuel (suc f) (suc g) m hf hg = elim (Step-cases (step m)) [
  | inl (m', e) ↦
      let less = step_shrinks m.parser.m_state m m' refl e in
      rw (e, loop) (loop_fuel f g m' (omega arith) (omega arith))
  | inr (r, m', e) ↦ rw (e, loop)
]

pub enough : (m : Machine) → measure m < 2 * length m.read_buffer + 2
enough m = omega (arith, pending_le m.parser.m_state)

-- `parse` always returns: its loop comes to an end whatever the buffer holds and in every state.
pub parse_total : (m : Machine) → (r : ParseResult) × (m' : Machine) × (parse m ≡ some (r, m'))
unfolding parse
parse_total m = loop_total (2 * length m.read_buffer + 2) m (enough m)
