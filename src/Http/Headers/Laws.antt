-- ===== src/Http/Headers/Laws.antt =====
-- Lookup after each change of a header map.
use c_http_1_1_server.Base.{
  ◌≡◌, ◌≢◌, inl, inr, none, some, arith, if◌then◌else◌, Option-cases, Bytes, bytes_eq, bytes_eq_iff,
  to_lower, to_lower_idem,
}
use c_http_1_1_server.Base.StringMap.{
  lookup, lookup-insert, lookup-erase, AllKeys, AllKeys-insert, AllKeys-erase, erase_absent,
}
use c_http_1_1_server.Http.Headers.{HttpHeaders, empty, set, get, del}

-- Every stored key is in lower case.
abbrev pub IsLower : Bytes → Type 0
IsLower k = to_lower k ≡ k

pub record IsValid (h : HttpHeaders) : Type 0 where
  pub lower_keys : AllKeys IsLower h.m_headers

pub empty-IsValid : IsValid empty
empty-IsValid = record { lower_keys = tt }

pub set-IsValid : (k v : Bytes) {h : HttpHeaders} → IsValid h → IsValid (set k v h)
unfolding set
set-IsValid k v {h} i = record {
  lower_keys = AllKeys-insert IsLower (to_lower k) v h.m_headers (to_lower_idem k) i.lower_keys;
}

-- A header is found again under its name in any case, and no other is touched.
pub get-set :
    (k j v : Bytes) (h : HttpHeaders)
    → get j (set k v h) ≡ (if bytes_eq (to_lower k) (to_lower j) then some v else get j h)
unfolding get set
get-set k j v h = lookup-insert (to_lower k) (to_lower j) v h.m_headers

-- `del` with a name in lower case removes that header, and no other.
get-del_lower :
    (k j : Bytes) (h : HttpHeaders)
    → to_lower k ≡ k
    → get j (del k h) ≡ (if bytes_eq k (to_lower j) then none else get j h)
unfolding get del
get-del_lower k j h e = elim (Option-cases (lookup (to_lower k) h.m_headers)) [
  | inl absent ↦ rw (absent, del) (ground (arith, bytes_eq_iff k (to_lower j)))
  | inr (v, present) ↦ rw (present, del) (lookup-erase k (to_lower j) h.m_headers)
]

-- Where the stored keys are lower-case, `del` with a name that holds a capital letter leaves every
-- header as it is.
pub del_capital : (k : Bytes) {h : HttpHeaders} → IsValid h → to_lower k ≢ k → del k h ≡ h
unfolding del
del_capital k {h} i n = elim (Option-cases (lookup (to_lower k) h.m_headers)) [
  | inl absent ↦ rw (absent, del)
  | inr (v, present) ↦ rw (present, del) (rw (erase_absent IsLower k h.m_headers i.lower_keys n))
]

pub del-IsValid : (k : Bytes) {h : HttpHeaders} → IsValid h → IsValid (del k h)
unfolding del
del-IsValid k {h} i = ground (arith, AllKeys-erase IsLower k h.m_headers i.lower_keys)
