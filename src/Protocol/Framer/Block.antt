-- ===== src/Protocol/Framer/Block.antt =====
-- `extractBytes`: fixed-size blocks off the front of the buffer.
use c_http_1_1_server.Base.{
  ℕ, ◌≤◌, ◌<◌, ◌≡◌, inl, inr, refl, sym, ap, ◌∙◌, ◌++◌, arith, ltb, ltb→lt, ltb→le, le→ltb,
  Bool-cases, length, length-append, length-take, take_front, drop_front, take-append-drop,
  append_assoc, lt→ltb, Bytes,
}
use c_http_1_1_server.Protocol.Framer.{
  FrameStatus, success, incomplete, header_too_large, payload_too_large, Framed, extract_bytes,
  max_http_body_size,
}

-- What `extractBytes` promises for each status, on buffer `buf` and output `bytes`.
abbrev pub BlockOutcome : FrameStatus → Bytes → ℕ → Bytes → Framed → Type 0
BlockOutcome success buf n bytes r =
    (buf ≡ r.out ++ r.read_buffer) × (length r.out ≡ n) × (n ≤ max_http_body_size)
BlockOutcome incomplete buf n bytes r =
    (r.read_buffer ≡ buf) × (r.out ≡ bytes) × (length buf < n) × (n ≤ max_http_body_size)
BlockOutcome header_too_large buf n bytes r = ⊥
BlockOutcome payload_too_large buf n bytes r =
    (r.read_buffer ≡ buf) × (r.out ≡ bytes) × (max_http_body_size < n)

-- On every branch: exactly the first `n` bytes are moved out if that many are there and `n` is at
-- most 10 MB; if fewer are there, buffer and output are as before; a larger `n` is refused at once.
pub extract_bytes_outcome :
    (buf : Bytes) (n : ℕ) (bytes : Bytes)
    → BlockOutcome (extract_bytes buf n bytes).status buf n bytes (extract_bytes buf n bytes)
unfolding extract_bytes
extract_bytes_outcome buf n bytes = elim (Bool-cases (ltb max_http_body_size n)) [
  | inl big ↦ rw big (refl, refl, ltb→lt _ _ big)
  | inr small ↦ rw small (elim (Bool-cases (ltb (length buf) n)) [
    | inl short ↦ rw short (refl, refl, ltb→lt _ _ short, ltb→le _ _ small)
    | inr enough ↦ rw enough (
      sym (take-append-drop n buf),
      omega (arith, length-take n buf, ltb→le _ _ enough),
      ltb→le _ _ small,
    )
  ])
]

-- A block that is there in full is cut off, whatever comes behind it.
pub extract_bytes_front :
    (block rest : Bytes) (n : ℕ) (old : Bytes)
    → n ≡ length block
    → n ≤ max_http_body_size
    → extract_bytes (block ++ rest) n old
      ≡ record { status = success; read_buffer = rest; out = block }
unfolding extract_bytes
extract_bytes_front block rest n old e h = rw (
  le→ltb max_http_body_size n h,
  le→ltb (length (block ++ rest)) n (omega (arith, length-append block rest)),
  take_front n block rest e,
  drop_front n block rest e,
)

-- What arrives behind a complete block changes neither the block nor the outcome.
pub extract_bytes-append :
    (buf more : Bytes) (n : ℕ) (bytes : Bytes)
    → (extract_bytes buf n bytes).status ≡ success
    → extract_bytes (buf ++ more) n bytes ≡ record {
      status = success;
      read_buffer = (extract_bytes buf n bytes).read_buffer ++ more;
      out = (extract_bytes buf n bytes).out;
    }
extract_bytes-append buf more n bytes h =
    let (split, size, fits) = rw h at (extract_bytes_outcome buf n bytes) in
    let r = extract_bytes buf n bytes in
    let joined : buf ++ more ≡ r.out ++ (r.read_buffer ++ more) =
      ap (λ b. b ++ more) split ∙ append_assoc r.out r.read_buffer more in
    ap (λ b. extract_bytes b n bytes) joined
    ∙ extract_bytes_front r.out (r.read_buffer ++ more) n bytes (sym size) fits

-- A refusal does not depend on what has arrived.
pub extract_bytes-too_large :
    (buf : Bytes) (n : ℕ) (bytes : Bytes)
    → max_http_body_size < n
    → extract_bytes buf n bytes
      ≡ record { status = payload_too_large; read_buffer = buf; out = bytes }
unfolding extract_bytes
extract_bytes-too_large buf n bytes h = rw (lt→ltb max_http_body_size n h)
