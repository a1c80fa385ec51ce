-- ===== src/Http/Client.antt =====
-- What a client makes of the bytes that the server sends: a reader of HTTP/1.1 responses after
-- RFC 9112, which is no part of the program. The client knows whether its request was a HEAD request.
-- A line ends with a CRLF; numbers are read as the standard library reads them.
pub mod Lines
pub mod Chunks
pub mod Fields
pub mod Status
pub mod Framed
pub mod Wire
pub mod Answers
use c_http_1_1_server.Base.{
  ℕ, zero, suc, ◌+◌, Bool, true, false, ◌&&◌, ◌||◌, ◌==◌, List, [], ◌∷◌, ◌++◌, Option, none, some,
  ltb, leb, if◌then◌else◌, length, take, drop, Bytes, bytes_eq, codes, crlf, is_empty, starts_with,
  to_lower,
}
use c_http_1_1_server.Http.Numbers.{Parsed, strtoul_hex, stoull}

infixl 5 ◌>>=◌ ◌>>◌
abbrev pub ◌>>=◌ : {A B : Type 0} → Option A → (A → Option B) → Option B
none >>= f = none
some a >>= f = f a

abbrev pub ◌>>◌ : {B : Type 0} → Option (Unit {0}) → Option B → Option B
m >> k = m >>= λ _. k

abbrev pub guard : Bool → Option (Unit {0})
guard true = some tt
guard false = none

pub record Reply : Type 0 where
  pub status : ℕ
  pub reason : Bytes
  pub fields : List (Bytes × Bytes)
  pub body : Bytes

abbrev pub push_front : ℕ → Option (Bytes × Bytes) → Option (Bytes × Bytes)
push_front c none = none
push_front c (some (front, rest)) = some (c ∷ front, rest)

-- The bytes up to the first CRLF, and those behind it.
unfoldable pub read_line : Bytes → Option (Bytes × Bytes)
read_line [] = none
read_line (c ∷ cs) =
    let longer = push_front c (read_line cs) in
    if starts_with crlf (c ∷ cs) then some ([], drop 1 cs) else longer

-- The bytes in front of the first `c`, and those behind it.
unfoldable pub cut_at : ℕ → Bytes → Option (Bytes × Bytes)
cut_at c [] = none
cut_at c (x ∷ xs) =
    let longer = push_front x (cut_at c xs) in if x == c then some ([], xs) else longer

unfoldable pub take_exactly : ℕ → Bytes → Option (Bytes × Bytes)
take_exactly n bytes = if leb n (length bytes) then some (take n bytes, drop n bytes) else none

abbrev pub http_version : Bytes
http_version = codes "HTTP/1.1 "

-- The status and the reason of a status line.
unfoldable pub read_status : Bytes → Option (ℕ × Bytes)
unfolding cut_at
read_status line = do
  guard (starts_with http_version line)
  (digits, reason) ← cut_at b' ' (drop (length http_version) line)
  status ← stoull digits
  some (status, reason)

unfoldable pub skip_blanks : Bytes → Bytes
skip_blanks [] = []
skip_blanks (c ∷ cs) = let rest = skip_blanks cs in if c == b' ' || c == b'\t' then rest else c ∷ cs

-- An empty line ends the fields; `more` is what follows the line.
abbrev pub read_field :
    Option (List (Bytes × Bytes) × Bytes) → Bytes → Bytes → Option (List (Bytes × Bytes) × Bytes)
read_field more rest [] = some ([], rest)
read_field more rest (c ∷ cs) = do
  (name, value) ← cut_at b':' (c ∷ cs)
  (fields, rest') ← more
  some ((name, skip_blanks value) ∷ fields, rest')

-- Each field takes a byte at least.
unfoldable pub read_fields : ℕ → Bytes → Option (List (Bytes × Bytes) × Bytes)
unfolding read_line
read_fields zero bytes = none
read_fields (suc fuel) bytes = do
  (line, rest) ← read_line bytes
  read_field (read_fields fuel rest) rest line

-- The first field of the name, in any case.
unfoldable pub field : Bytes → List (Bytes × Bytes) → Option Bytes
field name [] = none
field name ((k, v) ∷ fields) = if bytes_eq (to_lower k) name then some v else field name fields

abbrev pub whole_number : Parsed → Option ℕ
whole_number p = if p.consumed && is_empty p.rest then some p.value else none

unfoldable pub read_end : Bytes → Option Bytes
unfolding read_line
read_end bytes = do (line, rest) ← read_line bytes; guard (is_empty line); some rest

abbrev pub read_chunk : (Bytes → Option (Bytes × Bytes)) → ℕ → Bytes → Option (Bytes × Bytes)
read_chunk more zero bytes = do rest ← read_end bytes; some ([], rest)
read_chunk more (suc size) bytes = do
  (front, rest) ← take_exactly (suc size) bytes
  rest' ← read_end rest
  (back, rest'') ← more rest'
  some (front ++ back, rest'')

-- The chunks up to the empty one, and the bytes behind them; each takes a byte at least.
unfoldable pub read_chunks : ℕ → Bytes → Option (Bytes × Bytes)
unfolding read_line read_end take_exactly
read_chunks zero bytes = none
read_chunks (suc fuel) bytes = do
  (line, rest) ← read_line bytes
  size ← whole_number (strtoul_hex line)
  read_chunk (read_chunks fuel) size rest

-- By the length that is announced, where no transfer coding is.
abbrev pub read_sized : Option Bytes → Bytes → Option (Bytes × Bytes)
read_sized none bytes = none
read_sized (some announced) bytes = do size ← stoull announced; take_exactly size bytes

abbrev pub read_framed : Option Bytes → Option Bytes → Bytes → Option (Bytes × Bytes)
read_framed none announced bytes = read_sized announced bytes
read_framed (some coding) announced bytes = do
  guard (bytes_eq (to_lower coding) (codes "chunked"))
  read_chunks (length bytes) bytes

-- A response to HEAD, and one with one of these statuses, has no body.
abbrev pub is_bodiless : Bool → ℕ → Bool
is_bodiless is_head status = is_head || ltb status 200 || status == 204 || status == 304

unfoldable pub read_body : Bool → ℕ → List (Bytes × Bytes) → Bytes → Option (Bytes × Bytes)
unfolding read_chunks take_exactly
read_body is_head status fields bytes =
    if is_bodiless is_head status
    then some ([], bytes)
    else read_framed (field (codes "transfer-encoding") fields)
        (field (codes "content-length") fields) bytes

-- One response, and the bytes behind it.
unfoldable pub read_response : Bool → Bytes → Option (Reply × Bytes)
unfolding read_line read_status read_fields read_body
read_response is_head bytes = do
  (line, rest) ← read_line bytes
  (status, reason) ← read_status line
  (fields, rest') ← read_fields (length rest) rest
  (body, rest'') ← read_body is_head status fields rest'
  some (record { status = status; reason = reason; fields = fields; body = body }, rest'')
