-- ===== src/Middleware/RateLimiter/Budget.antt =====
-- What the limiter grants to an address in a span of time, over any sequence of calls and sweeps.
use c_http_1_1_server.Base.{
  ℕ, ◌+◌, ◌-◌, ◌*◌, ◌≤◌, ◌≡◌, ap, ◌∙◌, arith, Bool, List, [], ◌∷◌, if◌then◌else◌, Bytes, bytes_eq,
  bytes_eq_iff,
}
use native.Mathlib.Nat.{add-mul, zero-mul}
use c_http_1_1_server.Middleware.RateLimiter.{RateLimiter, token, sweep_stale, allow, write_bucket}
use c_http_1_1_server.Middleware.RateLimiter.Level.{
  IsValid, level, level-allow, level_bounded, level_growth, allow-IsValid,
}
use c_http_1_1_server.Middleware.RateLimiter.Sweep.{level-sweep, sweep-IsValid}

-- A call of `allow` for an address, with the times of its two steps, or a sweep.
pub data Operation : Type 0 where
  call : Bytes → ℕ → ℕ → Operation
  sweep : ℕ → ℕ → Operation

-- The times do not go back from `start` to `end`, and a bucket that is swept would have been full.
abbrev pub AreTimed : ℕ → ℕ → ℕ → ℕ → List Operation → Type 0
AreTimed rate capacity start end [] = start ≤ end
AreTimed rate capacity start end (call ip found now ∷ os) =
    (start ≤ found) × (found ≤ now) × AreTimed rate capacity now end os
AreTimed rate capacity start end (sweep max_idle now ∷ os) =
    (start ≤ now) × (capacity ≤ (max_idle * token) * rate) × AreTimed rate capacity now end os

-- How many calls of an address were granted.
abbrev pub granted : Bytes → List (Bytes × Bool) → ℕ
granted who [] = 0
granted who ((ip, allowed) ∷ more) =
    (if bytes_eq ip who then (if allowed then 1 else 0) else 0) + granted who more

AreTimed-le :
    (start end : ℕ) (os : List Operation) (l : RateLimiter)
    → AreTimed l.rate l.capacity start end os
    → start ≤ end
AreTimed-le start end [] l h = h
AreTimed-le start end (call ip found now ∷ os) l (h, h', hs) =
    omega (arith, AreTimed-le now end os l hs)
AreTimed-le start end (sweep max_idle now ∷ os) l (h, small, hs) =
    omega (arith, AreTimed-le now end os l hs)

module _ (hash : Bytes → ℕ) where
  -- The answers to the calls, in order, each with its address.
  unfoldable pub answers : List Operation → RateLimiter → List (Bytes × Bool)
  answers [] l = []
  answers (call ip found now ∷ os) l =
      let (allowed, after) = allow hash found now ip l in (ip, allowed) ∷ answers os after
  answers (sweep max_idle now ∷ os) l = answers os (sweep_stale max_idle now l)

  call_within :
      (who ip : Bytes) (found now start end : ℕ) (l : RateLimiter) (more : ℕ)
      → IsValid l
      → start ≤ now
      → now ≤ end
      → let (allowed, after) = allow hash found now ip l in
        more * token ≤ level hash now who after + (end - now) * l.rate
        → ((if bytes_eq ip who then (if allowed then 1 else 0) else 0) + more) * token
          ≤ level hash start who l + (end - start) * l.rate
  call_within who ip found now start end l more v early late rest =
      let (allowed, after) = allow hash found now ip l in
      let (grant, levels) = level-allow hash found now ip l v in
      let split : (end - start) * l.rate ≡ (now - start) * l.rate + (end - now) * l.rate =
        ap (λ t. t * l.rate) (omega arith) ∙ add-mul (now - start) (end - now) l.rate in
      let grown = level_growth hash start now who l early in
      let still : (now - now) * l.rate ≡ 0 = ap (λ t. t * l.rate) (omega arith) ∙ zero-mul l.rate in
      ground (
        arith,
        rest,
        levels now who,
        grant,
        split,
        grown,
        still,
        bytes_eq_iff ip who,
        λ (e : ip ≡ who). ap (λ w. level hash now w l) e,
      )

  pub granted_within :
      (who : Bytes) (start end : ℕ) (os : List Operation) (l : RateLimiter)
      → IsValid l
      → AreTimed l.rate l.capacity start end os
      → granted who (answers os l) * token ≤ level hash start who l + (end - start) * l.rate
  unfolding answers allow write_bucket sweep_stale
  granted_within who start end [] l v h = omega arith
  granted_within who start end (call ip found now ∷ os) l v (h, h', hs) =
      let after = (allow hash found now ip l).1 in
      call_within who ip found now start end l (granted who (answers os after)) v (omega arith)
        (AreTimed-le now end os l hs)
        (granted_within who now end os after (allow-IsValid hash found now ip l v) hs)
  granted_within who start end (sweep max_idle now ∷ os) l v (h, small, hs) =
      let after = sweep_stale max_idle now l in
      let end_later = AreTimed-le now end os l hs in
      let split : (end - start) * l.rate ≡ (now - start) * l.rate + (end - now) * l.rate =
        ap (λ t. t * l.rate) (omega arith) ∙ add-mul (now - start) (end - now) l.rate in
      omega (
        arith,
        granted_within who now end os after (sweep-IsValid max_idle now l v) hs,
        split,
        level-sweep hash max_idle now now who l v small (omega arith),
        level_growth hash start now who l h,
      )

  -- Over any sequence of calls for any addresses, and of sweeps of buckets that would have been full,
  -- the limiter grants an address at most the burst and the rate times the span of time. This needs
  -- that the clock does not go back.
  pub granted_budget :
      (who : Bytes) (start end : ℕ) (os : List Operation) (l : RateLimiter)
      → IsValid l
      → AreTimed l.rate l.capacity start end os
      → granted who (answers os l) * token ≤ l.capacity + (end - start) * l.rate
  granted_budget who start end os l v h =
      omega (arith, granted_within who start end os l v h, level_bounded hash start who l)
