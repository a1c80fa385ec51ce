-- ===== src/Tests/Framing.antt =====
-- The framer (src/protocol/Framer.cpp) on small buffers.
use c_http_1_1_server.Base.{ℕ, zero, suc, ◌≡◌, refl, [], ◌∷◌, ◌++◌, arith, Bytes, Lacks, codes}
use c_http_1_1_server.Protocol.Framer.{success, incomplete, header_too_large, extract_line}
use c_http_1_1_server.Protocol.Framer.Line.{Lacks-cr-LacksCrlf, LineOutcome, extract_line_outcome}
use c_http_1_1_server.Protocol.Framer.Limits.{long_line_depends_on_arrival}

abbrev two_lines : Bytes
two_lines = codes "GET / HTTP/1.1\r\nHost: a\r\n"

first_line :
    extract_line two_lines []
    ≡ record { status = success; read_buffer = codes "Host: a\r\n"; out = codes "GET / HTTP/1.1" }
unfolding extract_line
first_line = refl

no_line_yet : (extract_line (codes "GET / HTTP/1.1\r") []).status ≡ incomplete
unfolding extract_line
no_line_yet = refl

extract_line_outcome_example :
    LineOutcome (extract_line two_lines []).status two_lines [] (extract_line two_lines [])
extract_line_outcome_example = extract_line_outcome two_lines []

abbrev letters : ℕ → Bytes
letters zero = []
letters (suc n) = b'a' ∷ letters n

letters-Lacks : (n : ℕ) → Lacks b'\r' (letters n)
letters-Lacks zero = tt
letters-Lacks (suc n) = (refl, letters-Lacks n)

long_line_depends_on_arrival_example :
    ((extract_line (letters 9000) []).status ≡ header_too_large)
    × ((extract_line (letters 9000 ++ b'\r' ∷ b'\n' ∷ []) []).status ≡ success)
long_line_depends_on_arrival_example =
    long_line_depends_on_arrival (letters 9000) []
      (Lacks-cr-LacksCrlf (letters 9000) (letters-Lacks 9000)) (omega arith) (omega arith)
