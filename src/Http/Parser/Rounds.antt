-- ===== src/Http/Parser/Rounds.antt =====
-- Rounds of the loop in a row, and the rounds that a complete line or block makes possible.
use c_http_1_1_server.Base.{
  ℕ, zero, suc, ◌≤◌, ◌<◌, ◌≡◌, refl, ap, ◌∙◌, [], ◌∷◌, ◌++◌, some, arith, length, Bytes,
}
use c_http_1_1_server.Protocol.Framer.{
  extract_line, extract_bytes, max_http_body_size, max_chunk_body_size,
}
use c_http_1_1_server.Protocol.Framer.Line.{LacksCrlf, extract_line-crlf}
use c_http_1_1_server.Protocol.Framer.Block.{extract_bytes_front}
use c_http_1_1_server.Http.Parser.{
  State, Machine, ParseResult, Step, continue, return, goto, after_line, after_chunk, after_body,
  with_line, in_chunk_data, in_body, bytes_needed, step, loop, parse,
}
use c_http_1_1_server.Http.Parser.Total.{measure, step_shrinks, enough}

-- The loop gets from the first machine to the second.
pub data Runs : Machine → Machine → Type 0 where
  here : {m : Machine} → Runs m m
  round : {m n p : Machine} → step m ≡ continue n → Runs n p → Runs m p

pub Runs-trans : {m n p : Machine} → Runs m n → Runs n p → Runs m p
Runs-trans here s = s
Runs-trans (round e r) s = round e (Runs-trans r s)

loop-Runs :
    (fuel : ℕ) {m n p : Machine} (r : ParseResult)
    → Runs m n
    → step n ≡ return r p
    → measure m < fuel
    → loop fuel m ≡ some (r, p)
unfolding loop
loop-Runs zero r runs e h = absurd (omega arith)
loop-Runs (suc fuel) r here e h = rw (e, loop)
loop-Runs (suc fuel) {m} r (round {n = q} s runs) e h =
    let less = step_shrinks m.parser.m_state m q refl s in
    rw (s, loop) (loop-Runs fuel r runs e (omega arith))

-- `parse` ends as the last of its rounds does.
pub parse-Runs :
    {m n p : Machine} (r : ParseResult) → Runs m n → step n ≡ return r p → parse m ≡ some (r, p)
unfolding parse
parse-Runs {m} r runs e = loop-Runs _ r runs e (enough m)

-- A complete line goes to the state that wants it.
pub with_line-crlf :
    (next : Bytes → Machine → Step) (m : Machine) (line rest : Bytes)
    → m.read_buffer ≡ line ++ b'\r' ∷ b'\n' ∷ rest
    → LacksCrlf (line ++ b'\r' ∷ [])
    → length line ≤ max_chunk_body_size
    → with_line next m ≡ next line (record m { read_buffer = rest })
unfolding with_line
with_line-crlf next m line rest e l h =
    ap (after_line next m) (ap (λ b. extract_line b []) e ∙ extract_line-crlf line rest [] l h)

pub in_chunk_data_front :
    (m : Machine) (block rest : Bytes)
    → m.read_buffer ≡ block ++ rest
    → m.parser.m_chunk_remaining ≡ length block
    → length block ≤ max_http_body_size
    → in_chunk_data m
      ≡ continue (
          goto State.chunk_crlf (record m {
            read_buffer = rest;
            request = record m.request { body = m.request.body ++ block };
          }))
unfolding in_chunk_data
in_chunk_data_front m block rest e size h =
    let n = m.parser.m_chunk_remaining in
    ap (after_chunk m)
      (ap (λ b. extract_bytes b n []) e ∙ extract_bytes_front block rest n [] size (omega arith))

pub in_body_front :
    (m : Machine) (block rest : Bytes)
    → m.read_buffer ≡ block ++ rest
    → bytes_needed m.request ≡ length block
    → length block ≤ max_http_body_size
    → in_body m
      ≡ return ParseResult.success (
          goto State.complete
            (record m { read_buffer = rest; request = record m.request { body = block } }))
unfolding in_body
in_body_front m block rest e size h =
    let n = bytes_needed m.request in
    ap (after_body m) (
      ap (λ b. extract_bytes b n m.request.body) e
      ∙ extract_bytes_front block rest n m.request.body size (omega arith))
