-- ===== src/Protocol/Framer/Limits.antt =====
-- The two limits of `extractLine`: 64 KB for a line that is complete, 8 KB for one that is not.
use c_http_1_1_server.Base.{◌≤◌, ◌<◌, ◌≡◌, refl, [], ◌∷◌, ◌++◌, arith, length, Bytes}
use c_http_1_1_server.Protocol.Framer.{
  FrameStatus, success, incomplete, header_too_large, payload_too_large, extract_line,
  max_http_header_size, max_chunk_body_size,
}
use c_http_1_1_server.Protocol.Framer.Line.{LacksCrlf, extract_line_outcome, extract_line-crlf}

LacksCrlf-front : (line : Bytes) → LacksCrlf (line ++ b'\r' ∷ []) → LacksCrlf line
LacksCrlf-front [] l = tt
LacksCrlf-front (c ∷ []) l = (ground arith, tt)
LacksCrlf-front (c ∷ d ∷ cs) l = (l.0, LacksCrlf-front (d ∷ cs) l.1)

not-LacksCrlf : (line rest : Bytes) → ¬ LacksCrlf (line ++ b'\r' ∷ b'\n' ∷ rest)
not-LacksCrlf [] rest l = cc (l.0)
not-LacksCrlf (c ∷ cs) rest l = not-LacksCrlf cs rest l.1

refused :
    (s : FrameStatus) (line : Bytes)
    → (extract_line line []).status ≡ s
    → LacksCrlf line
    → max_http_header_size < length line
    → s ≡ header_too_large
refused success line e l h =
    let (split, _, _) = rw e at (extract_line_outcome line []) in
    absurd (not-LacksCrlf _ _ (rw split at l))
refused incomplete line e l h =
    let (_, _, _, small) = rw e at (extract_line_outcome line []) in absurd (omega arith)
refused header_too_large line e l h = refl
refused payload_too_large line e l h = absurd (rw e at (extract_line_outcome line []))

-- A line of more than 8 KB and at most 64 KB is accepted if its CRLF is in the buffer already, and
-- refused if the buffer is looked at before the CRLF has arrived.
pub long_line_depends_on_arrival :
    (line rest : Bytes)
    → LacksCrlf (line ++ b'\r' ∷ [])
    → max_http_header_size < length line
    → length line ≤ max_chunk_body_size
    → ((extract_line line []).status ≡ header_too_large)
      × ((extract_line (line ++ b'\r' ∷ b'\n' ∷ rest) []).status ≡ success)
long_line_depends_on_arrival line rest l big fits =
    (refused _ line refl (LacksCrlf-front line l) big, rw (extract_line-crlf line rest [] l fits))
