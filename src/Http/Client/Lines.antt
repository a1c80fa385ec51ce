-- ===== src/Http/Client/Lines.antt =====
-- How the client's reader goes through text that is printed.
use c_http_1_1_server.Base.{
  ℕ, ◌≡◌, refl, arith, [], ◌∷◌, ◌++◌, some, length, length-append, take_front, drop_front, Bytes,
  crlf, starts_with, Lacks,
}
use c_http_1_1_server.Http.Client.{read_line, cut_at, take_exactly, read_end}

pub read_line-crlf :
    (line rest : Bytes) → Lacks b'\r' line → read_line (line ++ (crlf ++ rest)) ≡ some (line, rest)
unfolding read_line starts_with
read_line-crlf [] rest h = refl
read_line-crlf (c ∷ cs) rest h = ground (arith, read_line-crlf cs rest h.1)

pub cut_at-Lacks :
    (c : ℕ) (front rest : Bytes) → Lacks c front → cut_at c (front ++ c ∷ rest) ≡ some (front, rest)
unfolding cut_at
cut_at-Lacks c [] rest h = ground arith
cut_at-Lacks c (x ∷ xs) rest h = ground (arith, cut_at-Lacks c xs rest h.1)

pub take_exactly_front :
    (front rest : Bytes) → take_exactly (length front) (front ++ rest) ≡ some (front, rest)
unfolding take_exactly
take_exactly_front front rest = ground (
  arith,
  length-append front rest,
  take_front (length front) front rest refl,
  drop_front (length front) front rest refl,
)

pub read_end-crlf : (rest : Bytes) → read_end (crlf ++ rest) ≡ some rest
unfolding read_end
read_end-crlf rest = rw (read_line-crlf [] rest tt) refl
