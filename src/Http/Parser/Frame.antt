-- ===== src/Http/Parser/Frame.antt =====
-- The three ways in which a state takes input from the framer, with the framer's promises.
use c_http_1_1_server.Base.{
  ℕ, ◌+◌, ◌≤◌, ◌≡◌, ◌⊎◌, inl, inr, refl, ap, [], ◌∷◌, arith, length, length-append, Bytes,
}
use c_http_1_1_server.Protocol.Framer.{FrameStatus, extract_line, extract_bytes}
use c_http_1_1_server.Protocol.Framer.Line.{extract_line_outcome}
use c_http_1_1_server.Protocol.Framer.Block.{extract_bytes_outcome}

pub Status-cases :
    (s : FrameStatus)
    → (s ≡ FrameStatus.success)
      ⊎ (s ≡ FrameStatus.incomplete)
      ⊎ (s ≡ FrameStatus.header_too_large)
      ⊎ (s ≡ FrameStatus.payload_too_large)
Status-cases FrameStatus.success = inl refl
Status-cases FrameStatus.incomplete = inr (inl refl)
Status-cases FrameStatus.header_too_large = inr (inr (inl refl))
Status-cases FrameStatus.payload_too_large = inr (inr (inr refl))

-- The line that is cut off takes at least two bytes with it.
pub line_shorter :
    (buf : Bytes)
    → (extract_line buf []).status ≡ FrameStatus.success
    → length (extract_line buf []).read_buffer + 2 ≤ length buf
line_shorter buf h =
    let (split, _, _) = rw h at (extract_line_outcome buf []) in
    let r = extract_line buf [] in
    omega (arith, ap length split, length-append r.out (b'\r' ∷ b'\n' ∷ r.read_buffer))

pub block_not_longer :
    (buf : Bytes) (n : ℕ) (old : Bytes)
    → (extract_bytes buf n old).status ≡ FrameStatus.success
    → length (extract_bytes buf n old).read_buffer ≤ length buf
block_not_longer buf n old h =
    let (split, _, _) = rw h at (extract_bytes_outcome buf n old) in
    let r = extract_bytes buf n old in
    omega (arith, ap length split, length-append r.out r.read_buffer)
