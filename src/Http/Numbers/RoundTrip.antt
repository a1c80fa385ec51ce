-- ===== src/Http/Numbers/RoundTrip.antt =====
-- What is printed is read back.
use c_http_1_1_server.Base.{
  ℕ, zero, suc, ◌+◌, ◌*◌, ◌/◌, ◌%◌, ◌≤◌, ◌<◌, ◌≡◌, refl, ap, ◌∙◌, inl, inr, true, false, [], ◌∷◌,
  some, ltb, leb, ◌==◌, Bytes, arith, Bool-cases, ltb→lt, ltb→le, Lacks, length,
}
use c_http_1_1_server.Http.Numbers.{
  digit_below, scan_digits, skip_spaces, has_digit, skip_prefix, take_sign, strtoul_hex, stoull,
  digit_char, to_digits, to_string, to_hex, word_mod,
}

digit_below-digit_char :
    (base d : ℕ) → base ≤ 16 → d < base → digit_below base (digit_char d) ≡ some d
unfolding digit_below digit_char
digit_below-digit_char base d h k = ground arith

div_lt : (n base : ℕ) → 2 ≤ base → base ≤ n → n / base < n
div_lt n base h k = grind arith

div_mod : (n base : ℕ) → 2 ≤ base → n / base * base + n % base ≡ n
div_mod n base h = grind arith

pub mod_lt : (n base : ℕ) → 2 ≤ base → n % base < base
mod_lt n base h = grind arith

-- Reading the digit of `n % base` behind `n / base` makes `n`.
scan_digit :
    (base acc d : ℕ) (out : Bytes)
    → base ≤ 16
    → d < base
    → scan_digits base acc (digit_char d ∷ out) ≡ scan_digits base (acc * base + d) out
unfolding scan_digits
scan_digit base acc d out h k = rw (digit_below-digit_char base d h k, scan_digits)

pub scan_digits-to_digits :
    (fuel base n : ℕ) (out : Bytes)
    → 2 ≤ base
    → base ≤ 16
    → n < fuel
    → scan_digits base 0 (to_digits fuel base n out) ≡ scan_digits base n out
unfolding to_digits
scan_digits-to_digits zero base n out lo hi h = absurd (omega arith)
scan_digits-to_digits (suc fuel) base n out lo hi h = elim (Bool-cases (ltb n base)) [
  | inl small ↦
      let e : 0 * base + n ≡ n = omega arith in
      rw small (rw (scan_digit base 0 n out hi (ltb→lt _ _ small), e))
  | inr large ↦
      let below = div_lt n base lo (ltb→le _ _ large) in
      rw large (
        scan_digits-to_digits fuel base (n / base) (digit_char (n % base) ∷ out) lo hi (omega arith)
        ∙ scan_digit base (n / base) (n % base) out hi (mod_lt n base lo)
        ∙ ap (λ m. scan_digits base m out) (div_mod n base lo))
]

div_pos : (n base : ℕ) → 2 ≤ base → base ≤ n → 0 < n / base
div_pos n base h k = grind arith

-- A printed number begins with one of its digits, which is 0 for the number 0 only.
to_digits_front :
    (fuel base n : ℕ) (out : Bytes)
    → 2 ≤ base
    → base ≤ 16
    → n < fuel
    → (d : ℕ) × (more : Bytes) × (to_digits fuel base n out ≡ digit_char d ∷ more)
      × (d < base)
      × (0 < n → 0 < d)
unfolding to_digits
to_digits_front zero base n out lo hi h = absurd (omega arith)
to_digits_front (suc fuel) base n out lo hi h = elim (Bool-cases (ltb n base)) [
  | inl small ↦ rw small (n, out, refl, ltb→lt _ _ small, λ p. p)
  | inr large ↦
      let le = ltb→le _ _ large in
      let below = div_lt n base lo le in
      let (d, more, e, dl, pos) =
        to_digits_front fuel base (n / base) (digit_char (n % base) ∷ out) lo hi (omega arith) in
      rw large (d, more, e, dl, λ _. pos (div_pos n base lo le))
]

-- Neither white space, sign nor prefix stands before a digit other than 0.
digit_lead :
    (d : ℕ) (more : Bytes)
    → d < 16
    → (take_sign (skip_spaces (digit_char d ∷ more)) ≡ (false, digit_char d ∷ more))
      × (has_digit 16 (digit_char d ∷ more) ≡ true)
unfolding take_sign skip_spaces has_digit digit_char
digit_lead d more h = ground arith

digit_lead_dec : (d : ℕ) (more : Bytes) → d < 10 → has_digit 10 (digit_char d ∷ more) ≡ true
unfolding has_digit digit_char
digit_lead_dec d more h = ground arith

no_prefix :
    (d : ℕ) (more : Bytes)
    → d < 16
    → 0 < d
    → skip_prefix (digit_char d ∷ more) ≡ digit_char d ∷ more
unfolding skip_prefix digit_char
no_prefix d [] h p = refl
no_prefix d (c ∷ cs) h p = ground arith

strtoul_hex_digits :
    (d n : ℕ) (more : Bytes)
    → d < 16
    → 0 < d
    → scan_digits 16 0 (digit_char d ∷ more) ≡ (n, [])
    → n < word_mod
    → strtoul_hex (digit_char d ∷ more)
      ≡ record { value = n; rest = []; consumed = true; erange = false }
unfolding strtoul_hex
strtoul_hex_digits d n more h p e k =
    let (lead, digit) = digit_lead d more h in
    let fits : leb word_mod n ≡ false = ground arith in
    rw (lead, no_prefix d more h p, digit, e, fits)

stoull_digits :
    (d n : ℕ) (more : Bytes)
    → d < 10
    → scan_digits 10 0 (digit_char d ∷ more) ≡ (n, [])
    → n < word_mod
    → stoull (digit_char d ∷ more) ≡ some n
unfolding stoull
stoull_digits d n more h e k =
    let (lead, _) = digit_lead d more (omega arith) in
    let fits : leb word_mod n ≡ false = ground arith in rw (lead, digit_lead_dec d more h, e, fits)

-- `strtoul` reads back what `std::hex` prints, for every number but 0 that a word holds.
pub strtoul_hex-to_hex :
    (n : ℕ)
    → 0 < n
    → n < word_mod
    → strtoul_hex (to_hex n) ≡ record { value = n; rest = []; consumed = true; erange = false }
unfolding to_hex scan_digits
strtoul_hex-to_hex n pos h =
    let (d, more, e, dl, dp) =
      to_digits_front (n + 1) 16 n [] (omega arith) (omega arith) (omega arith) in
    let read = scan_digits-to_digits (n + 1) 16 n [] (omega arith) (omega arith) (omega arith) in
    rw e (strtoul_hex_digits d n more dl (dp pos) (rw e at read) h)

-- `std::stoull` reads back what `std::to_string` prints.
pub stoull-to_string : (n : ℕ) → n < word_mod → stoull (to_string n) ≡ some n
unfolding to_string scan_digits
stoull-to_string n h =
    let (d, more, e, dl, dp) =
      to_digits_front (n + 1) 10 n [] (omega arith) (omega arith) (omega arith) in
    let read = scan_digits-to_digits (n + 1) 10 n [] (omega arith) (omega arith) (omega arith) in
    rw e (stoull_digits d n more dl (rw e at read) h)

-- A printed number holds nothing but digits.
to_digits-Lacks :
    (c fuel base n : ℕ) (out : Bytes)
    → ((d : ℕ) → d < 16 → (digit_char d == c) ≡ false)
    → 2 ≤ base
    → base ≤ 16
    → n < fuel
    → Lacks c out
    → Lacks c (to_digits fuel base n out)
unfolding to_digits
to_digits-Lacks c zero base n out no_digit lo hi h l = absurd (omega arith)
to_digits-Lacks c (suc fuel) base n out no_digit lo hi h l = elim (Bool-cases (ltb n base)) [
  | inl small ↦ let below = ltb→lt _ _ small in rw small (no_digit n (omega arith), l)
  | inr large ↦
      let below = div_lt n base lo (ltb→le _ _ large) in
      let digit = mod_lt n base lo in
      rw large (
        to_digits-Lacks c fuel base (n / base) (digit_char (n % base) ∷ out) no_digit lo hi
          (omega arith) (no_digit (n % base) (omega arith), l))
]

pub to_hex-Lacks : (c n : ℕ) → ((d : ℕ) → d < 16 → (digit_char d == c) ≡ false) → Lacks c (to_hex n)
unfolding to_hex
to_hex-Lacks c n no_digit =
    to_digits-Lacks c (n + 1) 16 n [] no_digit (omega arith) (omega arith) (omega arith) tt

pub to_string-Lacks :
    (c n : ℕ) → ((d : ℕ) → d < 16 → (digit_char d == c) ≡ false) → Lacks c (to_string n)
unfolding to_string
to_string-Lacks c n no_digit =
    to_digits-Lacks c (n + 1) 10 n [] no_digit (omega arith) (omega arith) (omega arith) tt

length-to_digits :
    (fuel base n : ℕ) (out : Bytes)
    → 2 ≤ base
    → 0 < n
    → n < fuel
    → length (to_digits fuel base n out) ≤ length out + n
unfolding to_digits
length-to_digits zero base n out lo pos h = absurd (omega arith)
length-to_digits (suc fuel) base n out lo pos h = elim (Bool-cases (ltb n base)) [
  | inl small ↦ rw small (omega arith)
  | inr large ↦
      let le = ltb→le _ _ large in
      let below = div_lt n base lo le in
      rw large (
        omega (
          arith,
          length-to_digits fuel base (n / base) (digit_char (n % base) ∷ out) lo
              (div_pos n base lo le),
        ))
]

pub length-to_hex : (n : ℕ) → 0 < n → length (to_hex n) ≤ n
unfolding to_hex
length-to_hex n pos = omega (arith, length-to_digits (n + 1) 16 n [] (omega arith) pos)

pub length-to_string : (n : ℕ) → length (to_string n) ≤ n + 1
unfolding to_string to_digits
length-to_string zero = omega arith
length-to_string (suc n) =
    omega (arith, length-to_digits (suc n + 1) 10 (suc n) [] (omega arith) (omega arith))

pub digit_char_no_semicolon : (d : ℕ) → d < 16 → (digit_char d == b';') ≡ false
unfolding digit_char
digit_char_no_semicolon d h = ground arith

pub digit_char_no_cr : (d : ℕ) → d < 16 → (digit_char d == b'\r') ≡ false
unfolding digit_char
digit_char_no_cr d h = ground arith

pub digit_char_no_blank : (d : ℕ) → d < 16 → (digit_char d == b' ') ≡ false
unfolding digit_char
digit_char_no_blank d h = ground arith

-- A printed number begins with a digit.
pub to_hex_front : (n : ℕ) → (d : ℕ) × (more : Bytes) × (to_hex n ≡ digit_char d ∷ more) × (d < 16)
unfolding to_hex
to_hex_front n =
    let (d, more, e, dl, _) =
      to_digits_front (n + 1) 16 n [] (omega arith) (omega arith) (omega arith) in
    (d, more, e, dl)

pub to_string_front :
    (n : ℕ) → (d : ℕ) × (more : Bytes) × (to_string n ≡ digit_char d ∷ more) × (d < 10)
unfolding to_string
to_string_front n =
    let (d, more, e, dl, _) =
      to_digits_front (n + 1) 10 n [] (omega arith) (omega arith) (omega arith) in
    (d, more, e, dl)
