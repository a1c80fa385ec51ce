-- ===== src/Base/Text.antt =====
-- Byte strings: `std::string` and `std::vector<uint8_t>` as lists of numbers, with the parts of the
-- C and C++ standard library (C locale) that the program calls on them.
use Prim.Native.Nat.{ℕ, suc, ◌+◌}
use Prim.Native.Char.{code}
use Prim.Native.String.{String}
use mathlib.Core.Path.{◌≡◌, refl}
use mathlib.Core.Logic.{◌↔◌}
use mathlib.Core.Bool.{Bool, true, false, not, ◌&&◌, ◌||◌}
use mathlib.Core.List.{List, [], ◌∷◌, ◌++◌}
use mathlib.Core.Option
use mathlib.Core.Option.{Option, none, some}
use native.Mathlib.Omega.{arith}
use c_http_1_1_server.Base.Tests.{leb, ◌==◌, if◌then◌else◌}
use c_http_1_1_server.Base.Lists.{length}

abbrev pub Bytes : Type 0
Bytes = List ℕ

-- The bytes of an ASCII literal.
abbrev pub codes : String → Bytes
codes String.[] = []
codes (String.◌∷◌ c s) = code c ∷ codes s

abbrev pub crlf : Bytes
crlf = b'\r' ∷ b'\n' ∷ []

-- `operator==` on strings.
unfoldable pub bytes_eq : Bytes → Bytes → Bool
bytes_eq [] [] = true
bytes_eq (x ∷ xs) (y ∷ ys) = x == y && bytes_eq xs ys
bytes_eq _ _ = false

pub bytes_eq_iff : (a b : Bytes) → (bytes_eq a b ≡ true) ↔ (a ≡ b)
unfolding bytes_eq
bytes_eq_iff (x ∷ a) (y ∷ b) = ground (arith, bytes_eq_iff a b)
bytes_eq_iff _ _ = ground arith

abbrev pub is_empty : Bytes → Bool
is_empty [] = true
is_empty (x ∷ xs) = false

-- `std::tolower` on a byte.
unfoldable pub to_lower_byte : ℕ → ℕ
to_lower_byte c = if leb b'A' c && leb c b'Z' then c + 32 else c

unfoldable pub to_lower : Bytes → Bytes
unfolding to_lower_byte
to_lower [] = []
to_lower (c ∷ cs) = to_lower_byte c ∷ to_lower cs

to_lower_byte_idem : (c : ℕ) → to_lower_byte (to_lower_byte c) ≡ to_lower_byte c
unfolding to_lower_byte
to_lower_byte_idem c = ground arith

pub to_lower_idem : (s : Bytes) → to_lower (to_lower s) ≡ to_lower s
unfolding to_lower
to_lower_idem [] = refl
to_lower_idem (c ∷ cs) = ground (arith, to_lower_idem cs)

-- `find(c)`: the position of the first byte `c`, `none` for `npos`.
unfoldable pub find_byte : ℕ → Bytes → Option ℕ
find_byte c [] = none
find_byte c (x ∷ xs) = if x == c then some 0 else Option.map suc (find_byte c xs)

unfoldable pub starts_with : Bytes → Bytes → Bool
starts_with [] s = true
starts_with (p ∷ ps) [] = false
starts_with (p ∷ ps) (x ∷ xs) = p == x && starts_with ps xs

-- `find(needle) != npos`.
unfoldable pub contains : Bytes → Bytes → Bool
unfolding starts_with
contains needle [] = starts_with needle []
contains needle (x ∷ xs) = starts_with needle (x ∷ xs) || contains needle xs

-- `std::isspace` on a byte.
unfoldable pub is_space : ℕ → Bool
is_space c = c == 32 || (leb 9 c && leb c 13)

-- No byte `c` stands in the text.
abbrev pub Lacks : ℕ → Bytes → Type 0
Lacks c [] = Unit {0}
Lacks c (x ∷ xs) = ((x == c) ≡ false) × Lacks c xs

pub find_byte-Lacks :
    (c : ℕ) (front rest : Bytes)
    → Lacks c front
    → find_byte c (front ++ c ∷ rest) ≡ some (length front)
unfolding find_byte
find_byte-Lacks c [] rest h = ground arith
find_byte-Lacks c (x ∷ xs) rest h = ground (arith, find_byte-Lacks c xs rest h.1)

pub find_byte-none : (c : ℕ) (s : Bytes) → Lacks c s → find_byte c s ≡ none
unfolding find_byte
find_byte-none c [] h = refl
find_byte-none c (x ∷ xs) h = ground (arith, find_byte-none c xs h.1)

-- The same as a test.
abbrev pub lacks : ℕ → Bytes → Bool
lacks c [] = true
lacks c (x ∷ xs) = not (x == c) && lacks c xs

pub lacks-Lacks : (c : ℕ) (s : Bytes) → lacks c s ≡ true → Lacks c s
lacks-Lacks c [] h = tt
lacks-Lacks c (x ∷ xs) h = (ground arith, lacks-Lacks c xs (ground arith))
