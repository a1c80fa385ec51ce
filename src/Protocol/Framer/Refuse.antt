-- ===== src/Protocol/Framer/Refuse.antt =====
-- What the framer refuses, it refuses also when more bytes are in the buffer, if no line is too long.
use c_http_1_1_server.Base.{ℕ, suc, ◌≤◌, ◌≡◌, refl, ap, [], ◌∷◌, ◌++◌, arith, length, Bytes}
use c_http_1_1_server.Protocol.Framer.{
  FrameStatus, Scan, over_limit, found, not_found, scan_crlf, cut_line, extract_line, extract_bytes,
  max_http_header_size,
}
use c_http_1_1_server.Protocol.Framer.Line.{LacksCrlf, Scanned, scan_crlf-Scanned}

-- Wherever the bytes are looked at, a stretch with no CRLF in it has at most 8 KB.
abbrev pub ShortLines : Bytes → Type 0
ShortLines bytes =
    (before part after : Bytes)
    → bytes ≡ before ++ (part ++ after)
    → LacksCrlf part
    → length part ≤ max_http_header_size

scan_crlf-append_over :
    (i : ℕ) (buf more : Bytes)
    → scan_crlf i buf ≡ over_limit
    → scan_crlf i (buf ++ more) ≡ over_limit
unfolding scan_crlf
scan_crlf-append_over i [] more e = cc
scan_crlf-append_over i (c ∷ []) more e = ground arith
scan_crlf-append_over i (c ∷ d ∷ cs) more e =
    ground (arith, scan_crlf-append_over (suc i) (d ∷ cs) more)

too_large-append :
    (c : ℕ) (cs more old : Bytes) (o : Scan)
    → scan_crlf 0 (c ∷ cs) ≡ o
    → Scanned 0 (c ∷ cs) o
    → ShortLines (c ∷ cs ++ more)
    → (cut_line o (c ∷ cs) old).status ≡ FrameStatus.header_too_large
    → (extract_line (c ∷ cs ++ more) old).status ≡ FrameStatus.header_too_large
unfolding extract_line cut_line
too_large-append c cs more old (found k) e s short h = cc
too_large-append c cs more old over_limit e s short h =
    ap (λ o. (cut_line o (c ∷ cs ++ more) old).status) (scan_crlf-append_over 0 (c ∷ cs) more e)
too_large-append c cs more old not_found e s short h =
    let fits = short [] (c ∷ cs) more refl s in ground arith

-- A line that is refused is refused, if no line of the bytes is over 8 KB.
pub extract_line-refused :
    (buf more old : Bytes)
    → ShortLines (buf ++ more)
    → (extract_line buf old).status ≡ FrameStatus.header_too_large
    → (extract_line (buf ++ more) old).status ≡ FrameStatus.header_too_large
unfolding extract_line
extract_line-refused [] more old short h = cc
extract_line-refused (c ∷ cs) more old short h =
    too_large-append c cs more old (scan_crlf 0 (c ∷ cs)) refl (scan_crlf-Scanned 0 (c ∷ cs)) short
      h

pub extract_bytes-refused :
    (buf more : Bytes) (n : ℕ) (old : Bytes)
    → (extract_bytes buf n old).status ≡ FrameStatus.payload_too_large
    → (extract_bytes (buf ++ more) n old).status ≡ FrameStatus.payload_too_large
unfolding extract_bytes
extract_bytes-refused buf more n old h = ground arith
