-- ===== src/Http/Client/Chunks.antt =====
-- The chunked body that the encoder writes, as a client reads it.
use c_http_1_1_server.Base.{
  ℕ, zero, suc, ◌-◌, ◌≤◌, ◌<◌, ◌≡◌, refl, ap, ◌∙◌, arith, [], ◌∷◌, ◌++◌, append_assoc, Option, some,
  length, length-append, length-take, length-drop, take, drop, take-append-drop, min, Bytes, codes,
  crlf,
}
use c_http_1_1_server.Http.Numbers.{to_hex, strtoul_hex, word_mod}
use c_http_1_1_server.Http.Numbers.RoundTrip.{strtoul_hex-to_hex, to_hex-Lacks, digit_char_no_cr}
use c_http_1_1_server.Http.Encoder.{max_chuck_size, chunk, chunks, chunked_body, last_chunk}
use c_http_1_1_server.Http.Client.{◌>>=◌, read_chunk, read_chunks, read_end, whole_number}
use c_http_1_1_server.Http.Client.Lines.{read_line-crlf, take_exactly_front, read_end-crlf}

-- A size, and what is read behind its line.
read_chunks_sized :
    (fuel n : ℕ) (rest : Bytes)
    → 0 < n
    → n < word_mod
    → read_chunks (suc fuel) (to_hex n ++ (crlf ++ rest)) ≡ read_chunk (read_chunks fuel) n rest
unfolding read_chunks
read_chunks_sized fuel n rest pos fits =
    ap
      (λ (o : Option (Bytes × Bytes)). o >>= λ (line, r).
        whole_number (strtoul_hex line) >>= λ size. read_chunk (read_chunks fuel) size r)
      (read_line-crlf (to_hex n) rest (to_hex-Lacks b'\r' n digit_char_no_cr))
    ∙ ap (λ p. whole_number p >>= λ size. read_chunk (read_chunks fuel) size rest)
        (strtoul_hex-to_hex n pos fits)

read_chunk_front :
    (fuel : ℕ) (front rest : Bytes) (back : Bytes) (left : Bytes)
    → 0 < length front
    → read_chunks fuel rest ≡ some (back, left)
    → read_chunk (read_chunks fuel) (length front) (front ++ (crlf ++ rest))
      ≡ some (front ++ back, left)
read_chunk_front fuel [] rest back left pos h = absurd (omega arith)
read_chunk_front fuel (c ∷ cs) rest back left pos h =
    ap
      (λ (o : Option (Bytes × Bytes)).
        o >>= λ (f, r). read_end r >>= λ r'. read_chunks fuel r' >>= λ (b, l). some (f ++ b, l))
      (take_exactly_front (c ∷ cs) (crlf ++ rest))
    ∙ ap
        (λ (o : Option Bytes).
          o >>= λ r'. read_chunks fuel r' >>= λ (b, l). some ((c ∷ cs) ++ b, l))
        (read_end-crlf rest)
    ∙ ap (λ (o : Option (Bytes × Bytes)). o >>= λ (b, l). some ((c ∷ cs) ++ b, l)) h

read_one :
    (fuel : ℕ) (front rest back left : Bytes)
    → 0 < length front
    → length front < word_mod
    → read_chunks fuel rest ≡ some (back, left)
    → read_chunks (suc fuel) (chunk front ++ rest) ≡ some (front ++ back, left)
unfolding chunk
read_one fuel front rest back left pos fits h =
    let n = length front in
    ap (read_chunks (suc fuel)) (
      append_assoc (to_hex n) (crlf ++ (front ++ crlf)) rest
      ∙ ap (λ t. to_hex n ++ (crlf ++ t)) (append_assoc front crlf rest))
    ∙ read_chunks_sized fuel n (front ++ (crlf ++ rest)) pos fits
    ∙ read_chunk_front fuel front rest back left pos h

read_last :
    (fuel : ℕ) (rest : Bytes) → read_chunks (suc fuel) (last_chunk ++ rest) ≡ some ([], rest)
unfolding read_chunks strtoul_hex
read_last fuel rest =
    ap
      (λ (o : Option (Bytes × Bytes)). o >>= λ (line, r).
        whole_number (strtoul_hex line) >>= λ size. read_chunk (read_chunks fuel) size r)
      (read_line-crlf (codes "0") (crlf ++ rest) (refl, tt))
    ∙ ap (λ (o : Option Bytes). o >>= λ r. some ([], r)) (read_end-crlf rest)

pub read_chunks-chunks :
    (fuel n : ℕ) (left rest : Bytes)
    → length left < fuel
    → length left ≤ n
    → read_chunks fuel (chunks n left ++ (last_chunk ++ rest)) ≡ some (left, rest)
unfolding chunks
read_chunks-chunks zero n left rest h b = absurd (omega arith)
read_chunks-chunks (suc fuel) zero [] rest h b = read_last fuel rest
read_chunks-chunks (suc fuel) zero (c ∷ cs) rest h b = absurd (omega arith)
read_chunks-chunks (suc fuel) (suc n) [] rest h b = read_last fuel rest
read_chunks-chunks (suc fuel) (suc n) (c ∷ cs) rest h b =
    let left = c ∷ cs in
    let k = min max_chuck_size (length left) in
    let front = take k left in
    let back = drop k left in
    let front_size : length front ≡ k = omega (arith, length-take k left) in
    let back_size : length back ≡ length left - k = omega (arith, length-drop k left) in
    ap (read_chunks (suc fuel)) (append_assoc (chunk front) (chunks n back) (last_chunk ++ rest))
    ∙ read_one fuel front (chunks n back ++ (last_chunk ++ rest)) back rest (omega arith)
        (omega arith) (read_chunks-chunks fuel n back rest (omega arith) (omega arith))
    ∙ ap (λ t. some (t, rest)) (take-append-drop k left)

length-chunks : (n : ℕ) (left : Bytes) → length left ≤ n → length left ≤ length (chunks n left)
unfolding chunks chunk
length-chunks zero left h = h
length-chunks (suc n) [] h = omega arith
length-chunks (suc n) (c ∷ cs) h =
    let left = c ∷ cs in
    let k = min max_chuck_size (length left) in
    let front = take k left in
    let back = drop k left in
    omega (
      arith,
      length-take k left,
      length-drop k left,
      length-append (chunk front) (chunks n back),
      length-append (to_hex (length front)) (crlf ++ (front ++ crlf)),
      length-append front crlf,
      length-chunks n back (omega (arith, length-drop k left)),
    )

-- A chunked body is read back whole, whatever follows it.
pub read_chunks-chunked_body :
    (text rest : Bytes)
    → read_chunks (length (chunked_body text ++ rest)) (chunked_body text ++ rest)
      ≡ some (text, rest)
unfolding chunked_body
read_chunks-chunked_body text rest =
    let all = chunked_body text ++ rest in
    let n = length text in
    ap (read_chunks (length all)) (append_assoc (chunks n text) last_chunk rest)
    ∙ read_chunks-chunks (length all) n text rest
        (omega (
          arith,
          length-chunks n text (omega arith),
          length-append (chunks n text ++ last_chunk) rest,
          length-append (chunks n text) last_chunk,
        ))
        (omega arith)
