-- ===== src/Http/Headers.antt =====
-- `HttpHeaders` (include/Http/HttpHeaders.h, src/Http/HttpHeaders.cpp).
pub mod Laws
use c_http_1_1_server.Base.{
  ℕ, Bool, true, false, List, [], ◌∷◌, Option, none, some, Bytes, codes, to_lower,
}
use c_http_1_1_server.Base.StringMap.{lookup, insert, erase}
use c_http_1_1_server.Http.Numbers.{stoull}

pub record HttpHeaders : Type 0 where
  pub m_headers : List (Bytes × Bytes)

abbrev pub empty : HttpHeaders
empty = record { m_headers = [] }

unfoldable pub set : Bytes → Bytes → HttpHeaders → HttpHeaders
set key value h = record { m_headers = insert (to_lower key) value h.m_headers }

unfoldable pub get : Bytes → HttpHeaders → Option Bytes
get key h = lookup (to_lower key) h.m_headers

-- The source looks the key up in lower case, and then erases it as it was given.
unfoldable pub del : Bytes → HttpHeaders → HttpHeaders
del key h = elim (lookup (to_lower key) h.m_headers) [
  | some v ↦ record { m_headers = erase key h.m_headers }
  | none ↦ h
]

unfoldable pub has : Bytes → HttpHeaders → Bool
has key h = elim (lookup (to_lower key) h.m_headers) [ some v ↦ true | none ↦ false ]

-- `catch(...) { return 0; }`.
abbrev pub or_zero : Option ℕ → ℕ
or_zero (some n) = n
or_zero none = 0

unfoldable pub get_content_length : HttpHeaders → ℕ
get_content_length h = elim (get (codes "content-length") h) [
  | some val ↦ or_zero (stoull val)
  | none ↦ 0
]
