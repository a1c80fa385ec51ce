-- ===== src/Http/ChunkedBody.antt =====
-- The chunked framing that `HttpResponseEncoder::encode` writes, read by `HttpRequestParser::parse`.
use c_http_1_1_server.Base.{
  ℕ, zero, suc, ◌+◌, ◌-◌, ◌≤◌, ◌<◌, ◌≡◌, refl, sym, subst, ap, ◌∙◌, [], ◌∷◌, ◌++◌, some, arith,
  length, length-append, length-take, length-drop, take, drop, take-append-drop, min, append_assoc,
  append-nil, Bytes, crlf, codes, false, find_byte, find_byte-none, is_space,
}
use c_http_1_1_server.Protocol.Framer.{max_http_body_size}
use c_http_1_1_server.Protocol.Framer.Line.{Lacks-cr-LacksCrlf}
use c_http_1_1_server.Http.Encoder.{max_chuck_size, chunk, chunks, chunked_body, last_chunk}
use c_http_1_1_server.Http.Numbers.{to_hex, digit_char, strtoul_hex, word_mod}
use c_http_1_1_server.Http.Numbers.RoundTrip.{
  strtoul_hex-to_hex, to_hex-Lacks, length-to_hex, digit_char_no_cr, digit_char_no_semicolon,
  to_hex_front,
}
use c_http_1_1_server.Http.Request.{HttpRequest}
use c_http_1_1_server.Http.Parser.{
  State, Machine, ParseResult, continue, return, goto, accept_size, on_size_line, on_chunk_end,
  on_trailer, step_in, step, parse,
}
use c_http_1_1_server.Http.ChunkSize.{bad_lead, hex_size, strip_extensions, chunk_size_of}
use c_http_1_1_server.Http.Parser.Rounds.{
  Runs, here, round, Runs-trans, parse-Runs, with_line-crlf, in_chunk_data_front,
}

bad_lead-digit_char : (d : ℕ) (more : Bytes) → d < 16 → bad_lead (digit_char d ∷ more) ≡ false
unfolding digit_char is_space
bad_lead-digit_char d more h = ground arith

hex_size-to_hex : (n : ℕ) → 0 < n → n < word_mod → hex_size (to_hex n) ≡ some n
unfolding hex_size
hex_size-to_hex n pos h =
    let (d, more, e, dl) = to_hex_front n in
    let lead : bad_lead (to_hex n) ≡ false = rw e (bad_lead-digit_char d more dl) in
    rw (lead, strtoul_hex-to_hex n pos h)

-- The number on a chunk-size line that the encoder writes.
chunk_size_of-to_hex : (n : ℕ) → 0 < n → n < word_mod → chunk_size_of (to_hex n) ≡ some n
unfolding chunk_size_of
chunk_size_of-to_hex n pos h =
    let whole : strip_extensions (to_hex n) ≡ to_hex n = rw (
      find_byte-none b';' (to_hex n) (to_hex-Lacks b';' n digit_char_no_semicolon),
      strip_extensions,
    ) in
    ap hex_size whole ∙ hex_size-to_hex n pos h

-- Waiting for a chunk size, with these bytes in the buffer and this body so far.
abbrev pub at_size : ℕ → Bytes → HttpRequest → Bytes → Machine
at_size k buf r body = record {
  parser = record { m_state = State.chunk_size; m_chunk_remaining = k };
  read_buffer = buf;
  request = record r { body = body };
}

on_size_line-to_hex :
    (n : ℕ) (m : Machine)
    → 0 < n
    → length m.request.body + n ≤ max_http_body_size
    → on_size_line (to_hex n) m
      ≡ continue
          (record m { parser = record { m_state = State.chunk_data; m_chunk_remaining = n } })
unfolding on_size_line accept_size
on_size_line-to_hex n m pos h =
    rw (chunk_size_of-to_hex n pos (omega arith), on_size_line) (ground arith)

-- One chunk is read in three rounds.
Runs-chunk :
    (k : ℕ) (bytes more : Bytes) (r : HttpRequest) (body : Bytes)
    → 0 < length bytes
    → length bytes ≤ max_chuck_size
    → length body + length bytes ≤ max_http_body_size
    → Runs (at_size k (chunk bytes ++ more) r body) (at_size (length bytes) more r (body ++ bytes))
unfolding step_in on_chunk_end chunk
Runs-chunk k bytes more r body pos small fits =
    let n = length bytes in
    let start = at_size k (chunk bytes ++ more) r body in
    let sized = record start {
      parser = record { m_state = State.chunk_data; m_chunk_remaining = n };
      read_buffer = bytes ++ (crlf ++ more);
    } in
    let filled = record start {
      parser = record { m_state = State.chunk_crlf; m_chunk_remaining = n };
      read_buffer = crlf ++ more;
      request = record r { body = body ++ bytes };
    } in
    let size_round : step start ≡ continue sized =
      with_line-crlf on_size_line start (to_hex n) (bytes ++ (crlf ++ more))
        (append_assoc (to_hex n) (crlf ++ (bytes ++ crlf)) more
          ∙ ap (λ t. to_hex n ++ (crlf ++ t)) (append_assoc bytes crlf more))
        (Lacks-cr-LacksCrlf (to_hex n) (to_hex-Lacks b'\r' n digit_char_no_cr))
        (omega (arith, length-to_hex n pos))
      ∙ on_size_line-to_hex n (record start { read_buffer = bytes ++ (crlf ++ more) }) pos fits in
    let data_round : step sized ≡ continue filled =
      in_chunk_data_front sized bytes (crlf ++ more) refl refl (omega arith) in
    let end_round : step filled ≡ continue (at_size n more r (body ++ bytes)) =
      with_line-crlf on_chunk_end filled [] more refl (refl, tt) (omega arith) in
    round size_round (round data_round (round end_round here))

-- All the chunks of a text are read, and nothing behind them.
Runs-chunks :
    (fuel k : ℕ) (left rest : Bytes) (r : HttpRequest) (body : Bytes)
    → length left ≤ fuel
    → length body + length left ≤ max_http_body_size
    → (k' : ℕ) × Runs
        (at_size k (chunks fuel left ++ rest) r body)
        (at_size k' rest r (body ++ left))
unfolding chunks
Runs-chunks zero k [] rest r body h fits = (k, rw append-nil here)
Runs-chunks zero k (b ∷ bs) rest r body h fits = absurd (omega arith)
Runs-chunks (suc fuel) k [] rest r body h fits = (k, rw append-nil here)
Runs-chunks (suc fuel) k (b ∷ bs) rest r body h fits =
    let left = b ∷ bs in
    let n = min max_chuck_size (length left) in
    let front = take n left in
    let back = drop n left in
    let front_size : length front ≡ n = omega (arith, length-take n left) in
    let back_size : length back ≡ length left - n = omega (arith, length-drop n left) in
    let first =
      Runs-chunk k front (chunks fuel back ++ rest) r body (omega arith) (omega arith)
        (omega arith) in
    let (k', later) =
      Runs-chunks fuel (length front) back rest r (body ++ front) (omega arith)
        (omega (arith, length-append body front)) in
    let text = append_assoc (chunk front) (chunks fuel back) rest in
    let whole : body ++ front ++ back ≡ body ++ left =
      append_assoc body front back ∙ ap (◌++◌ body) (take-append-drop n left) in
    (
      k',
      subst
          (λ b.
            Runs (at_size k (chunk front ++ chunks fuel back ++ rest) r body) (at_size k' rest r b))
          whole
          (subst (λ t. Runs (at_size k t r body) (at_size k' rest r (body ++ front ++ back)))
            (sym text) (Runs-trans first later)),
    )

zero_size : chunk_size_of (codes "0") ≡ some 0
unfolding chunk_size_of strtoul_hex find_byte
zero_size = refl

on_size_line_zero :
    (m : Machine)
    → length m.request.body ≤ max_http_body_size
    → on_size_line (codes "0") m ≡ continue (goto State.trailers m)
unfolding on_size_line accept_size
on_size_line_zero m h = rw (zero_size, on_size_line) (ground arith)

abbrev pub in_trailers : ℕ → Bytes → HttpRequest → Bytes → Machine
in_trailers k buf r body = record {
  parser = record { m_state = State.trailers; m_chunk_remaining = k };
  read_buffer = buf;
  request = record r { body = body };
}

last_size_round :
    (k : ℕ) (rest : Bytes) (r : HttpRequest) (body : Bytes)
    → length body ≤ max_http_body_size
    → step (at_size k (last_chunk ++ rest) r body) ≡ continue (in_trailers k (crlf ++ rest) r body)
unfolding step_in
last_size_round k rest r body h =
    with_line-crlf on_size_line (at_size k (last_chunk ++ rest) r body) (codes "0") (crlf ++ rest)
      refl (refl, (refl, tt)) (omega arith)
    ∙ on_size_line_zero (at_size k (crlf ++ rest) r body) h

end_round :
    (k : ℕ) (rest : Bytes) (r : HttpRequest) (body : Bytes)
    → step (in_trailers k (crlf ++ rest) r body)
      ≡ return ParseResult.success (goto State.complete (in_trailers k rest r body))
unfolding step_in on_trailer
end_round k rest r body =
    with_line-crlf on_trailer (in_trailers k (crlf ++ rest) r body) [] rest refl (refl, tt)
      (omega arith)

-- The rounds up to the last, which ends the body.
pub chunked_body_rounds :
    (k : ℕ) (text rest : Bytes) (r : HttpRequest)
    → length r.body + length text ≤ max_http_body_size
    → (k' : ℕ) × (m : Machine) × Runs (at_size k (chunked_body text ++ rest) r r.body) m
      × (step m
          ≡ return ParseResult.success
              (goto State.complete (in_trailers k' rest r (r.body ++ text))))
unfolding chunked_body
chunked_body_rounds k text rest r fits =
    let (k', runs) =
      Runs-chunks (length text) k text (last_chunk ++ rest) r r.body (omega arith) fits in
    let body = r.body ++ text in
    let size = last_size_round k' rest r body (omega (arith, length-append r.body text)) in
    let text_eq = append_assoc (chunks (length text) text) last_chunk rest in
    let m = in_trailers k' (crlf ++ rest) r body in
    (
      k',
      m,
      subst (λ t. Runs (at_size k t r r.body) m) (sym text_eq) (Runs-trans runs (round size here)),
      end_round k' rest r body,
    )

-- What `encode` writes for a chunked body is read back whole: from the state behind the headers,
-- `parse` ends with `Success` in state `Complete`, the bytes are appended to the request's body, and
-- the buffer holds exactly what stands behind the last chunk. This holds for every body that fits in
-- 10 MB together with what the request has, and for whatever bytes follow.
pub parse-chunked_body :
    (k : ℕ) (text rest : Bytes) (r : HttpRequest)
    → length r.body + length text ≤ max_http_body_size
    → (k' : ℕ) × (parse (record {
      parser = record { m_state = State.chunk_size; m_chunk_remaining = k };
      read_buffer = chunked_body text ++ rest;
      request = r;
    })
        ≡ some (
          ParseResult.success,
          record {
            parser = record { m_state = State.complete; m_chunk_remaining = k' };
            read_buffer = rest;
            request = record r { body = r.body ++ text };
          },
        ))
parse-chunked_body k text rest r fits =
    let (k', m, runs, last) = chunked_body_rounds k text rest r fits in
    (k', parse-Runs ParseResult.success runs last)
