-- ===== src/Http/Numbers.antt =====
-- Numbers in text, as the parts of the standard library that the program calls: `strtoul` with base
-- 16 (Http/HttpRequestParser.cpp), `stoull` (Http/HttpHeaders.cpp), `to_string` and `std::hex`
-- (Http/HttpResponseEncoder.cpp). `unsigned long` and `size_t` have 64 bits.
pub mod RoundTrip
use c_http_1_1_server.Base.{
  ℕ, zero, suc, ◌+◌, ◌-◌, ◌*◌, ◌/◌, ◌%◌, ◌^◌, Bool, true, false, not, ◌&&◌, ◌||◌, [], ◌∷◌, Option,
  none, some, ltb, leb, ◌==◌, if◌then◌else◌, Bytes, is_space,
}

abbrev pub word_mod : ℕ
word_mod = 2 ^ 64

-- The value of a digit, in any base up to 16.
unfoldable pub digit_value : ℕ → Option ℕ
digit_value c =
    if leb b'0' c && leb c b'9'
    then some (c - b'0')
    else if leb b'a' c && leb c b'f'
    then some (c - b'a' + 10)
    else if leb b'A' c && leb c b'F'
    then some (c - b'A' + 10)
    else none

unfoldable pub digit_below : ℕ → ℕ → Option ℕ
unfolding digit_value
digit_below base c = elim (digit_value c) [
  | none ↦ none
  | some d ↦ if ltb d base then some d else none
]

-- The digits at the front of a text: their value behind `acc`, and what follows them.
unfoldable pub scan_digits : ℕ → ℕ → Bytes → ℕ × Bytes
unfolding digit_below
scan_digits base acc [] = (acc, [])
scan_digits base acc (c ∷ cs) = elim (digit_below base c) [
  | none ↦ (acc, c ∷ cs)
  | some d ↦ scan_digits base (acc * base + d) cs
]

unfoldable pub skip_spaces : Bytes → Bytes
unfolding is_space
skip_spaces [] = []
skip_spaces (c ∷ cs) = let rest = skip_spaces cs in if is_space c then rest else c ∷ cs

unfoldable pub has_digit : ℕ → Bytes → Bool
unfolding digit_below
has_digit base [] = false
has_digit base (c ∷ cs) = elim (digit_below base c) [ none ↦ false | some d ↦ true ]

-- `0x` or `0X`, if a digit follows.
unfoldable pub skip_prefix : Bytes → Bytes
unfolding has_digit
skip_prefix (a ∷ x ∷ cs) =
    if a == b'0' && (x == b'x' || x == b'X') && has_digit 16 cs then cs else a ∷ x ∷ cs
skip_prefix s = s

-- A sign, and whether it is a minus.
unfoldable pub take_sign : Bytes → Bool × Bytes
take_sign [] = (false, [])
take_sign (c ∷ cs) =
    if c == b'-' then (true, cs) else if c == b'+' then (false, cs) else (false, c ∷ cs)

-- What `strtoul` and `strtoull` leave: the value, the text from `*end` on, whether digits were
-- consumed, and whether `errno` is `ERANGE`.
pub record Parsed : Type 0 where
  pub value : ℕ
  pub rest : Bytes
  pub consumed : Bool
  pub erange : Bool

-- An overflow yields `ULONG_MAX`; a minus negates in unsigned arithmetic.
unfoldable pub finish_number : Bool → ℕ × Bytes → Parsed
finish_number minus (n, rest) = record {
  value = if leb word_mod n then word_mod - 1 else if minus then (word_mod - n) % word_mod else n;
  rest = rest;
  consumed = true;
  erange = leb word_mod n;
}

-- With no digits `*end` is the whole text.
unfoldable pub number : ℕ → Bytes → Bool → Bytes → Parsed
unfolding has_digit finish_number scan_digits
number base whole minus s =
    if has_digit base s
    then finish_number minus (scan_digits base 0 s)
    else record { value = 0; rest = whole; consumed = false; erange = false }

unfoldable pub strtoul_hex : Bytes → Parsed
unfolding skip_spaces take_sign skip_prefix number
strtoul_hex s = let (minus, t) = take_sign (skip_spaces s) in number 16 s minus (skip_prefix t)

-- `none` for either exception of `std::stoull`.
unfoldable pub stoull : Bytes → Option ℕ
unfolding skip_spaces take_sign number
stoull s =
    let (minus, t) = take_sign (skip_spaces s) in
    let p = number 10 s minus t in
    if not p.consumed then none else if p.erange then none else some p.value

unfoldable pub digit_char : ℕ → ℕ
digit_char d = if ltb d 10 then b'0' + d else b'a' + (d - 10)

-- The digits of `n` in front of `out`, most significant first.
unfoldable pub to_digits : ℕ → ℕ → ℕ → Bytes → Bytes
unfolding digit_char
to_digits zero base n out = out
to_digits (suc fuel) base n out =
    let more = to_digits fuel base (n / base) (digit_char (n % base) ∷ out) in
    if ltb n base then digit_char n ∷ out else more

-- `std::to_string` and `<< std::hex`. The fuel is more than the number of digits.
unfoldable pub to_string : ℕ → Bytes
unfolding to_digits
to_string n = to_digits (n + 1) 10 n []

unfoldable pub to_hex : ℕ → Bytes
unfolding to_digits
to_hex n = to_digits (n + 1) 16 n []
