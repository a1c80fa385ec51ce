-- ===== src/Protocol/Framer/Line.antt =====
-- `extractLine`: what it takes off the buffer, and when it waits or refuses.
use c_http_1_1_server.Base.{
  ℕ, zero, suc, ◌+◌, ◌≤◌, ◌<◌, ◌≡◌, ◌⊎◌, inl, inr, refl, ap, ◌∙◌, false, ◌&&◌, [], ◌∷◌, ◌++◌, arith,
  ltb, ◌==◌, ltb→lt, ltb→le, Bool-cases, length, take, drop, take_front, append_assoc, Bytes, Lacks,
  is_empty,
}
use c_http_1_1_server.Protocol.Framer.{
  FrameStatus, success, incomplete, header_too_large, payload_too_large, Framed, Scan, found,
  over_limit, not_found, next_is_lf, scan_crlf, cut_line, extract_line, max_chunk_body_size,
  max_http_header_size,
}

-- No CRLF stands in the text.
abbrev pub LacksCrlf : Bytes → Type 0
LacksCrlf [] = Unit {0}
LacksCrlf (c ∷ cs) = ((c == b'\r' && next_is_lf cs) ≡ false) × LacksCrlf cs

-- A text with no CR is a line.
pub Lacks-cr-LacksCrlf : (s : Bytes) → Lacks b'\r' s → LacksCrlf (s ++ b'\r' ∷ [])
Lacks-cr-LacksCrlf [] h = (refl, tt)
Lacks-cr-LacksCrlf (c ∷ cs) h = (ground arith, Lacks-cr-LacksCrlf cs h.1)

-- The loop stops at the first CRLF, if it begins at or below the limit.
pub scan_crlf_line :
    (i : ℕ) (line rest : Bytes)
    → LacksCrlf (line ++ b'\r' ∷ [])
    → i + length line ≤ max_chunk_body_size
    → scan_crlf i (line ++ b'\r' ∷ b'\n' ∷ rest) ≡ found (i + length line)
unfolding scan_crlf
scan_crlf_line i [] rest l h = ground arith
scan_crlf_line i (c ∷ []) rest l h = ground (arith, scan_crlf_line (suc i) [] rest l.1)
scan_crlf_line i (c ∷ d ∷ cs) rest l h = ground (arith, scan_crlf_line (suc i) (d ∷ cs) rest l.1)

-- What the loop's outcome says of the bytes.
abbrev pub Scanned : ℕ → Bytes → Scan → Type 0
Scanned i buf (found k) =
    (line : Bytes) × (rest : Bytes) × (buf ≡ line ++ b'\r' ∷ b'\n' ∷ rest)
    × (k ≡ i + length line)
    × (k ≤ max_chunk_body_size)
    × LacksCrlf (line ++ b'\r' ∷ [])
Scanned i buf over_limit = max_chunk_body_size < i + length buf
Scanned i buf not_found = LacksCrlf buf

Scanned-cons :
    (i c : ℕ) (cs : Bytes) (o : Scan)
    → (c == b'\r' && next_is_lf cs) ≡ false
    → Scanned (suc i) cs o
    → Scanned i (c ∷ cs) o
Scanned-cons i c cs (found k) e (line, rest, split, at, fits, l) =
    (c ∷ line, rest, ap (◌∷◌ c) split, omega arith, fits, (head line split, l))
  where
    head :
        (line' : Bytes)
        → cs ≡ line' ++ b'\r' ∷ b'\n' ∷ rest
        → (c == b'\r' && next_is_lf (line' ++ b'\r' ∷ [])) ≡ false
    head [] s = ground arith
    head (d ∷ ds) s = rw s at e
Scanned-cons i c cs over_limit e h = omega arith
Scanned-cons i c cs not_found e h = (e, h)

pub scan_crlf-Scanned : (i : ℕ) (buf : Bytes) → Scanned i buf (scan_crlf i buf)
unfolding scan_crlf
scan_crlf-Scanned i [] = tt
scan_crlf-Scanned i (c ∷ cs) = elim (Bool-cases (ltb max_chunk_body_size i)) [
  | inl over ↦ rw over (omega (arith, ltb→lt _ _ over))
  | inr within ↦ rw within (elim (Bool-cases (c == b'\r' && next_is_lf cs)) [
    | inl here ↦ rw here ([], drop 1 cs, ground arith, omega arith, ltb→le _ _ within, (refl, tt))
    | inr no_end ↦
        rw no_end (Scanned-cons i c cs (scan_crlf (suc i) cs) no_end (scan_crlf-Scanned (suc i) cs))
  ])
]

-- What `extractLine` promises for each status, on buffer `buf` and output string `line`.
abbrev pub LineOutcome : FrameStatus → Bytes → Bytes → Framed → Type 0
LineOutcome success buf line r =
    (buf ≡ r.out ++ b'\r' ∷ b'\n' ∷ r.read_buffer)
    × LacksCrlf (r.out ++ b'\r' ∷ [])
    × (length r.out ≤ max_chunk_body_size)
LineOutcome incomplete buf line r =
    (r.read_buffer ≡ buf) × (r.out ≡ line) × LacksCrlf buf × (length buf ≤ max_http_header_size)
LineOutcome header_too_large buf line r =
    (r.read_buffer ≡ buf)
    × (r.out ≡ line)
    × (max_http_header_size < length buf)
    × (LacksCrlf buf ⊎ (max_chunk_body_size < length buf))
LineOutcome payload_too_large buf line r = ⊥

drop_line :
    (n : ℕ) (l rest : Bytes) → n ≡ length l → drop (n + 2) (l ++ b'\r' ∷ b'\n' ∷ rest) ≡ rest
drop_line zero [] rest e = refl
drop_line zero (c ∷ l) rest e = absurd (omega arith)
drop_line (suc n) [] rest e = absurd (omega arith)
drop_line (suc n) (c ∷ l) rest e =
    let shift : suc n + 2 ≡ suc (n + 2) = omega arith in rw shift (drop_line n l rest (omega arith))

cut_line-Outcome :
    (o : Scan) (buf line : Bytes)
    → Scanned 0 buf o
    → LineOutcome (cut_line o buf line).status buf line (cut_line o buf line)
unfolding cut_line
cut_line-Outcome (found k) buf line (l, rest, split, at, fits, lacks) =
    let at' : k ≡ length l = omega arith in
    let taken : take k buf ≡ l = rw split (take_front k l _ at') in
    let left : drop (k + 2) buf ≡ rest = rw split (drop_line k l rest at') in
    (rw (taken, left) split, rw taken lacks, rw taken (omega arith))
cut_line-Outcome over_limit buf line h = (refl, refl, omega arith, inr (omega arith))
cut_line-Outcome not_found buf line h = elim (Bool-cases (ltb max_http_header_size (length buf))) [
  | inl big ↦ rw big (refl, refl, ltb→lt _ _ big, inl h)
  | inr small ↦ rw small (refl, refl, h, ltb→le _ _ small)
]

-- On every branch: a line is cut off exactly at the first CRLF and has at most 64 KB; when the
-- call waits, buffer and output are as before, no CRLF has arrived and at most 8 KB are buffered;
-- when it refuses, both are as before too, and more than 8 KB are buffered with no CRLF or more
-- than 64 KB with or without one. It never reports `PayloadTooLarge`.
pub extract_line_outcome :
    (buf line : Bytes) → LineOutcome (extract_line buf line).status buf line (extract_line buf line)
unfolding extract_line
extract_line_outcome [] line = (refl, refl, tt, omega arith)
extract_line_outcome (c ∷ cs) line = cut_line-Outcome _ (c ∷ cs) line (scan_crlf-Scanned 0 (c ∷ cs))

is_empty-append : (line rest : Bytes) → is_empty (line ++ b'\r' ∷ rest) ≡ false
is_empty-append [] rest = refl
is_empty-append (c ∷ cs) rest = refl

-- A line of at most 64 KB that has arrived with its CRLF is cut off, whatever comes behind it.
pub extract_line-crlf :
    (line rest old : Bytes)
    → LacksCrlf (line ++ b'\r' ∷ [])
    → length line ≤ max_chunk_body_size
    → extract_line (line ++ b'\r' ∷ b'\n' ∷ rest) old
      ≡ record { status = success; read_buffer = rest; out = line }
unfolding extract_line
extract_line-crlf line rest old l h =
    let at : 0 + length line ≡ length line = omega arith in
    rw (
      is_empty-append line (b'\n' ∷ rest),
      scan_crlf_line 0 line rest l (omega arith),
      at,
      take_front (length line) line (b'\r' ∷ b'\n' ∷ rest) refl,
      drop_line (length line) line rest refl,
    )

-- What arrives behind a complete line changes neither the line nor the outcome.
pub extract_line-append :
    (buf more line : Bytes)
    → (extract_line buf line).status ≡ success
    → extract_line (buf ++ more) line ≡ record {
      status = success;
      read_buffer = (extract_line buf line).read_buffer ++ more;
      out = (extract_line buf line).out;
    }
extract_line-append buf more line h =
    let (split, lacks, fits) = rw h at (extract_line_outcome buf line) in
    let r = extract_line buf line in
    let joined : buf ++ more ≡ r.out ++ b'\r' ∷ b'\n' ∷ (r.read_buffer ++ more) =
      ap (λ b. b ++ more) split ∙ append_assoc r.out (b'\r' ∷ b'\n' ∷ r.read_buffer) more in
    ap (λ b. extract_line b line) joined
    ∙ extract_line-crlf r.out (r.read_buffer ++ more) line lacks fits
