-- ===== src/Http/Client/Fields.antt =====
-- The header lines that the encoder writes, as a client reads them.
use c_http_1_1_server.Base.{
  ℕ, zero, suc, ◌≤◌, ◌<◌, ◌≡◌, refl, sym, ap, ◌∙◌, arith, List, [], ◌∷◌, ◌++◌, append_assoc, Option,
  some, length, length-append, Bytes, crlf, Lacks,
}
use c_http_1_1_server.Base.StringMap.{lookup, AllKeys}
use c_http_1_1_server.Base.StringMap.Order.{AllEntries}
use c_http_1_1_server.Http.Headers.Laws.{IsLower}
use c_http_1_1_server.Http.Encoder.{header_lines}
use c_http_1_1_server.Http.Message.{IsTrimmed}
use c_http_1_1_server.Http.Client.{◌>>=◌, read_field, read_fields, cut_at, skip_blanks, field}
use c_http_1_1_server.Http.Client.Lines.{read_line-crlf, cut_at-Lacks}

-- A header that a line can carry: a name in lower case, no CR in it, no `:` in its name, no
-- blank in front of its value.
pub record IsSent (key value : Bytes) : Type 0 where
  pub lower_key : IsLower key
  pub no_cr_key : Lacks b'\r' key
  pub no_colon : Lacks b':' key
  pub no_cr_value : Lacks b'\r' value
  pub trimmed : IsTrimmed value

pub Lacks-append : (c : ℕ) (xs ys : Bytes) → Lacks c xs → Lacks c ys → Lacks c (xs ++ ys)
Lacks-append c [] ys h k = k
Lacks-append c (x ∷ xs) ys h k = (h.0, Lacks-append c xs ys h.1 k)

skip_blanks-IsTrimmed : (v : Bytes) → IsTrimmed v → skip_blanks v ≡ v
unfolding skip_blanks
skip_blanks-IsTrimmed [] h = refl
skip_blanks-IsTrimmed (c ∷ cs) h = ground arith

abbrev line_of : Bytes → Bytes → Bytes
line_of key value = key ++ (b':' ∷ b' ' ∷ value)

header_lines-line :
    (key value rest : Bytes) (fields : List (Bytes × Bytes))
    → header_lines ((key, value) ∷ fields) ++ rest
      ≡ line_of key value ++ (crlf ++ (header_lines fields ++ rest))
unfolding header_lines
header_lines-line key value rest fields =
    append_assoc key _ rest
    ∙ ap (λ t. key ++ (b':' ∷ b' ' ∷ t)) (append_assoc value (crlf ++ header_lines fields) rest)
    ∙ sym (append_assoc key (b':' ∷ b' ' ∷ value) (crlf ++ (header_lines fields ++ rest)))

abbrev with_field :
    Option (List (Bytes × Bytes) × Bytes) → Bytes → Bytes → Option (List (Bytes × Bytes) × Bytes)
with_field more name value =
    more >>= λ (fields, rest). some ((name, skip_blanks value) ∷ fields, rest)

read_field_cons :
    (more : Option (List (Bytes × Bytes) × Bytes)) (rest line key value : Bytes)
    → 0 < length line
    → cut_at b':' line ≡ some (key, value)
    → read_field more rest line ≡ with_field more key value
read_field_cons more rest [] key value pos e = absurd (omega arith)
read_field_cons more rest (c ∷ cs) key value pos e =
    ap (λ (o : Option (Bytes × Bytes)). o >>= λ (k, v). with_field more k v) e

read_field_line :
    (more : Option (List (Bytes × Bytes) × Bytes)) (key value rest : Bytes)
    → IsSent key value
    → read_field more rest (line_of key value)
      ≡ (more >>= λ (fields, rest'). some ((key, value) ∷ fields, rest'))
unfolding skip_blanks
read_field_line more key value rest s =
    read_field_cons more rest (line_of key value) key (b' ' ∷ value)
      (omega (arith, length-append key (b':' ∷ b' ' ∷ value)))
      (cut_at-Lacks b':' key (b' ' ∷ value) s.no_colon)
    ∙ ap (λ v. more >>= λ (fields, rest'). some ((key, v) ∷ fields, rest'))
        (skip_blanks-IsTrimmed value s.trimmed)

pub read_fields-header_lines :
    (fuel : ℕ) (fields : List (Bytes × Bytes)) (rest : Bytes)
    → AllEntries IsSent fields
    → length fields < fuel
    → read_fields fuel (header_lines fields ++ (crlf ++ rest)) ≡ some (fields, rest)
unfolding read_fields header_lines
read_fields-header_lines zero fields rest h n = absurd (omega arith)
read_fields-header_lines (suc fuel) [] rest h n =
    ap (λ (o : Option (Bytes × Bytes)). o >>= λ (line, r). read_field (read_fields fuel r) r line)
      (read_line-crlf [] rest tt)
read_fields-header_lines (suc fuel) ((key, value) ∷ fields) rest h n =
    let s = h.0 in
    let more = header_lines fields ++ (crlf ++ rest) in
    ap (read_fields (suc fuel)) (header_lines-line key value (crlf ++ rest) fields)
    ∙ ap (λ (o : Option (Bytes × Bytes)). o >>= λ (line, r). read_field (read_fields fuel r) r line)
        (read_line-crlf (line_of key value) more (
          Lacks-append b'\r' key (b':' ∷ b' ' ∷ value) s.no_cr_key
            (ground arith, (ground arith, s.no_cr_value))))
    ∙ read_field_line (read_fields fuel more) key value more s
    ∙ ap (λ (o : Option (List (Bytes × Bytes) × Bytes)). o >>= λ (f, r). some ((key, value) ∷ f, r))
        (read_fields-header_lines fuel fields rest h.1 (omega arith))

pub length-header_lines :
    (fields : List (Bytes × Bytes)) → length fields ≤ length (header_lines fields)
unfolding header_lines
length-header_lines [] = omega arith
length-header_lines ((key, value) ∷ fields) = omega (
  arith,
  length-header_lines fields,
  length-append key (b':' ∷ b' ' ∷ (value ++ (crlf ++ header_lines fields))),
  length-append value (crlf ++ header_lines fields),
)

-- Among such headers, the first field of a lower-case name is what the map holds for it.
pub field-lookup :
    (name : Bytes) (m : List (Bytes × Bytes)) → AllEntries IsSent m → field name m ≡ lookup name m
unfolding field lookup
field-lookup name [] h = refl
field-lookup name ((k, v) ∷ m) h = rw (h.0.lower_key, field-lookup name m h.1) refl

pub IsSent-IsLower : (m : List (Bytes × Bytes)) → AllEntries IsSent m → AllKeys IsLower m
IsSent-IsLower [] h = tt
IsSent-IsLower ((k, v) ∷ m) h = (h.0.lower_key, IsSent-IsLower m h.1)
