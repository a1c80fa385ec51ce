-- ===== src/Middleware/PerIpConnectionLimiter/Slots.antt =====
-- The slots that an address holds after each operation, and the bound on them.
use c_http_1_1_server.Base.{
  ℕ, suc, ◌+◌, ◌-◌, ◌≡◌, ◌≤◌, ◌<◌, ◌⊎◌, refl, sym, ap, ◌∙◌, arith, true, false, Option, none, some,
  if◌then◌else◌, Bytes, bytes_eq, bytes_eq_iff,
}
use c_http_1_1_server.Base.StringMap.{lookup, insert, erase, lookup-insert, lookup-erase}
use c_http_1_1_server.Middleware.PerIpConnectionLimiter.{
  PerIpConnectionLimiter, count_or_zero, held, try_acquire, release_entry, release,
}

held-insert :
    (ip who : Bytes) (n : ℕ) (l : PerIpConnectionLimiter)
    → held who (record l { counts = insert ip n l.counts })
      ≡ (if bytes_eq ip who then n else held who l)
unfolding held count_or_zero
held-insert ip who n l = ground (arith, lookup-insert ip who n l.counts)

held-erase :
    (ip who : Bytes) (l : PerIpConnectionLimiter)
    → held who (record l { counts = erase ip l.counts })
      ≡ (if bytes_eq ip who then 0 else held who l)
unfolding held count_or_zero
held-erase ip who l = ground (arith, lookup-erase ip who l.counts)

-- A slot is given exactly if the address holds fewer than the limit, and is then counted; no other
-- address is affected, and a refusal changes no count.
pub try_acquire-held :
    (ip who : Bytes) (l : PerIpConnectionLimiter)
    → let (given, after) = try_acquire ip l in
      ((given ≡ true)
        × (held ip l < l.max_per_ip)
        × (held who after ≡ (if bytes_eq ip who then suc (held ip l) else held who l)))
      ⊎ ((given ≡ false) × (l.max_per_ip ≤ held ip l) × (held who after ≡ held who l))
unfolding try_acquire
try_acquire-held ip who l = ground (
  arith,
  held-insert ip who (held ip l) l,
  held-insert ip who (held ip l + 1) l,
  bytes_eq_iff ip who,
)

held-lookup :
    (ip who : Bytes) (l : PerIpConnectionLimiter) (o : Option ℕ)
    → lookup ip l.counts ≡ o
    → ip ≡ who
    → held who l ≡ count_or_zero o
unfolding held
held-lookup ip who l o e same =
    ap (λ w. count_or_zero (lookup w l.counts)) (sym same) ∙ ap count_or_zero e

held-release_entry :
    (ip who : Bytes) (l : PerIpConnectionLimiter) (o : Option ℕ)
    → lookup ip l.counts ≡ o
    → held who (release_entry ip l o)
      ≡ (if bytes_eq ip who then count_or_zero o - 1 else held who l)
unfolding release_entry count_or_zero
held-release_entry ip who l none e =
    ground (arith, held-lookup ip who l none e, bytes_eq_iff ip who)
held-release_entry ip who l (some n) e =
    ground (arith, held-erase ip who l, held-insert ip who (n - 1) l)

-- A release gives back one slot of the address, if it holds any, and no other.
pub held-release :
    (ip who : Bytes) (l : PerIpConnectionLimiter)
    → held who (release ip l) ≡ (if bytes_eq ip who then held ip l - 1 else held who l)
unfolding release held
held-release ip who l = held-release_entry ip who l (lookup ip l.counts) refl
