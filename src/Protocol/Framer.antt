-- ===== src/Protocol/Framer.antt =====
-- `Framer` (include/protocol/Framer.h, src/protocol/Framer.cpp). The read buffer and the output
-- string are reference parameters in the source: here they are arguments, and their final values
-- come back in the result.
pub mod Line
pub mod Block
pub mod Limits
pub mod Refuse
use c_http_1_1_server.Base.{
  ℕ, zero, suc, ◌+◌, ◌*◌, Bool, true, false, ◌&&◌, List, [], ◌∷◌, ltb, ◌==◌, if◌then◌else◌, length,
  take, drop, Bytes, is_empty,
}

abbrev pub max_http_header_size : ℕ
max_http_header_size = 8 * 1024

abbrev pub max_http_body_size : ℕ
max_http_body_size = 10 * 1024 * 1024

abbrev pub max_chunk_body_size : ℕ
max_chunk_body_size = 64 * 1024

pub data FrameStatus : Type 0 where
  success incomplete header_too_large payload_too_large : FrameStatus

pub record Framed : Type 0 where
  pub status : FrameStatus
  pub read_buffer : Bytes
  pub out : Bytes

-- What the scan of `extractLine` meets first.
pub data Scan : Type 0 where
  found : ℕ → Scan
  over_limit : Scan
  not_found : Scan

-- `readBuffer[i + 1] == '\n'`, with the bound test before it.
abbrev pub next_is_lf : Bytes → Bool
next_is_lf [] = false
next_is_lf (c ∷ cs) = c == b'\n'

-- The `for` loop, on the bytes from index `i` on.
pub scan_crlf : ℕ → Bytes → Scan
scan_crlf i [] = not_found
scan_crlf i (c ∷ cs) =
    let rest = scan_crlf (suc i) cs in
    if ltb max_chunk_body_size i
    then over_limit
    else if c == b'\r' && next_is_lf cs
    then found i
    else rest

-- What is done with the outcome of the loop.
pub cut_line : Scan → Bytes → Bytes → Framed
cut_line (found i) buf line = record {
  status = success;
  read_buffer = drop (i + 2) buf;
  out = take i buf;
}
cut_line over_limit buf line = record { status = header_too_large; read_buffer = buf; out = line }
cut_line not_found buf line = record {
  status = if ltb max_http_header_size (length buf) then header_too_large else incomplete;
  read_buffer = buf;
  out = line;
}

unfoldable pub extract_line : Bytes → Bytes → Framed
unfolding scan_crlf cut_line
extract_line buf line =
    if is_empty buf
    then record { status = incomplete; read_buffer = buf; out = line }
    else cut_line (scan_crlf 0 buf) buf line

unfoldable pub extract_bytes : Bytes → ℕ → Bytes → Framed
extract_bytes buf required bytes =
    if ltb max_http_body_size required
    then record { status = payload_too_large; read_buffer = buf; out = bytes }
    else if ltb (length buf) required
    then record { status = incomplete; read_buffer = buf; out = bytes }
    else record { status = success; read_buffer = drop required buf; out = take required buf }
