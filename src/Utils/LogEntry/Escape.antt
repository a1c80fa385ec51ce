-- ===== src/Utils/LogEntry/Escape.antt =====
-- What a JSON reader makes of the strings that `escape_json` writes.
use c_http_1_1_server.Base.{
  ℕ, ◌≡◌, refl, ap, ◌∙◌, arith, Bool, true, false, ◌&&◌, ◌||◌, ◌==◌, [], ◌∷◌, ◌++◌, append_assoc,
  Option, none, some, if◌then◌else◌, ltb, leb, Bytes,
}
use c_http_1_1_server.Utils.LogEntry.{escape_char, escape_json}

-- The escapes of JSON (RFC 8259) with one letter.
unfoldable pub unescape : ℕ → Option ℕ
unescape c =
    if c == b'"' || c == b'\\' || c == b'/'
    then some c
    else if c == b'b'
    then some 8
    else if c == b'f'
    then some 12
    else if c == b'n'
    then some 10
    else if c == b'r'
    then some 13
    else if c == b't'
    then some 9
    else none

abbrev pub push_char : Option ℕ → Option (Bytes × Bytes) → Option (Bytes × Bytes)
push_char none o = none
push_char (some c) none = none
push_char (some c) (some (s, rest)) = some (c ∷ s, rest)

-- A string up to its closing quote, and what follows it; `escaped` after a backslash. A control
-- character in the string is an error.
unfoldable pub read_string : Bool → Bytes → Option (Bytes × Bytes)
unfolding unescape
read_string escaped [] = none
read_string true (c ∷ cs) = push_char (unescape c) (read_string false cs)
read_string false (c ∷ cs) =
    let rest = read_string false cs in
    let after_backslash = read_string true cs in
    if c == b'"'
    then some ([], cs)
    else if c == b'\\'
    then after_backslash
    else if ltb c 32
    then none
    else push_char (some c) rest

-- A character from the space on, or one of backspace, tab, line feed, form feed and carriage return.
abbrev pub is_printable : ℕ → Bool
is_printable c = leb 32 c || c == 8 || c == 9 || c == 10 || c == 12 || c == 13

abbrev pub all_printable : Bytes → Bool
all_printable [] = true
all_printable (c ∷ cs) = is_printable c && all_printable cs

read-escape_char :
    (c : ℕ) (rest : Bytes)
    → read_string false (escape_char c ++ rest)
      ≡ (if is_printable c then push_char (some c) (read_string false rest) else none)
unfolding escape_char read_string unescape
read-escape_char c rest = ground arith

both_printable :
    (c : ℕ) (s rest : Bytes)
    → (if is_printable c
        then push_char (some c) (if all_printable s then some (s, rest) else none)
        else none)
      ≡ (if all_printable (c ∷ s) then some (c ∷ s, rest) else none)
both_printable c s rest = choose (is_printable c) (all_printable s)
  where
    choose :
        (p q : Bool)
        → (if p then push_char (some c) (if q then some (s, rest) else none) else none)
          ≡ (if p && q then some (c ∷ s, rest) else none)
    choose true true = refl
    choose true false = refl
    choose false q = refl

-- A JSON reader gets an escaped string back, whatever follows its closing quote, exactly if each of its
-- bytes is a space or more, or a backspace, tab, line feed, form feed or carriage return. With any other
-- byte, the escape character among them, what is written is not JSON.
pub read-escape_json :
    (s rest : Bytes)
    → read_string false (escape_json s ++ b'"' ∷ rest)
      ≡ (if all_printable s then some (s, rest) else none)
unfolding escape_json read_string
read-escape_json [] rest = refl
read-escape_json (c ∷ s) rest =
    ap (read_string false) (append_assoc (escape_char c) (escape_json s) (b'"' ∷ rest))
    ∙ read-escape_char c (escape_json s ++ b'"' ∷ rest)
    ∙ ap (λ o. if is_printable c then push_char (some c) o else none) (read-escape_json s rest)
    ∙ both_printable c s rest
