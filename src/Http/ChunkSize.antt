-- ===== src/Http/ChunkSize.antt =====
-- The syntax of a chunk-size line in `HttpRequestParser::parse` (src/Http/HttpRequestParser.cpp).
use c_http_1_1_server.Base.{
  ℕ, Bool, true, not, ◌||◌, [], ◌∷◌, Option, none, some, ◌==◌, if◌then◌else◌, take, Bytes,
  find_byte, is_space,
}
use c_http_1_1_server.Http.Numbers.{strtoul_hex}

-- The text before the first `;`.
unfoldable pub strip_extensions : Bytes → Bytes
strip_extensions line = elim (find_byte b';' line) [ none ↦ line | some semi ↦ take semi line ]

abbrev pub bad_lead : Bytes → Bool
bad_lead [] = true
bad_lead (c ∷ cs) = c == b'-' || c == b'+' || is_space c

-- `*end == '\0'`: at the end of the text, or at a zero byte inside it.
abbrev pub at_nul : Bytes → Bool
at_nul [] = true
at_nul (c ∷ cs) = c == 0

-- The number that the text before the `;` spells, `none` where the source gives up on its syntax.
unfoldable pub hex_size : Bytes → Option ℕ
unfolding is_space
hex_size size_hex =
    let p = strtoul_hex size_hex in
    if bad_lead size_hex
    then none
    else if not p.consumed || not (at_nul p.rest) || p.erange
    then none
    else some p.value

unfoldable pub chunk_size_of : Bytes → Option ℕ
unfolding strip_extensions hex_size
chunk_size_of line = hex_size (strip_extensions line)
