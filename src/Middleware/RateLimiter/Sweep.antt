-- ===== src/Middleware/RateLimiter/Sweep.antt =====
-- An eviction is not seen by any later call.
use c_http_1_1_server.Base.{
  ℕ, zero, suc, ◌-◌, ◌*◌, ◌/◌, ◌≤◌, ◌≡◌, refl, sym, ap, subst, ◌∙◌, arith, true, inl, inr,
  Bool-cases, List, [], ◌∷◌, Option, none, some, length, get_elem?, if◌then◌else◌, ltb→lt, Bytes,
  bytes_eq_iff,
}
use c_http_1_1_server.Base.StringMap.{lookup, Distinct}
use native.Mathlib.Nat.{mul-le-mul_right}
use c_http_1_1_server.Middleware.RateLimiter.{
  Bucket, RateLimiter, token, refilled, is_stale, sweep_shard, sweep_shards, sweep_stale, bucket_of,
  shard_or_empty,
}
use c_http_1_1_server.Middleware.RateLimiter.Level.{IsValid, map_of, level_of, level}

-- What is left of a stored bucket.
abbrev pub keep_fresh : ℕ → ℕ → Option Bucket → Option Bucket
keep_fresh max_idle now none = none
keep_fresh max_idle now (some b) = if is_stale max_idle now b then none else some b

lookup-sweep_shard :
    (max_idle now : ℕ) (who : Bytes) (m : List (Bytes × Bucket))
    → Distinct m
    → lookup who (sweep_shard max_idle now m) ≡ keep_fresh max_idle now (lookup who m)
unfolding lookup sweep_shard
lookup-sweep_shard max_idle now who [] d = refl
lookup-sweep_shard max_idle now who ((ip, b) ∷ m) d = ground (
  arith,
  lookup-sweep_shard max_idle now who m d.1,
  bytes_eq_iff ip who,
  λ (e : ip ≡ who). ap (λ k. lookup k m) e,
)

sweep_shard-absent :
    (max_idle now : ℕ) (who : Bytes) (m : List (Bytes × Bucket))
    → lookup who m ≡ none
    → lookup who (sweep_shard max_idle now m) ≡ none
unfolding lookup sweep_shard
sweep_shard-absent max_idle now who [] d = refl
sweep_shard-absent max_idle now who ((ip, b) ∷ m) d =
    ground (arith, sweep_shard-absent max_idle now who m)

sweep_shard-Distinct :
    (max_idle now : ℕ) (m : List (Bytes × Bucket))
    → Distinct m
    → Distinct (sweep_shard max_idle now m)
unfolding sweep_shard
sweep_shard-Distinct max_idle now [] d = tt
sweep_shard-Distinct max_idle now ((ip, b) ∷ m) d =
    ground
      (arith, sweep_shard-Distinct max_idle now m d.1, sweep_shard-absent max_idle now ip m d.0)

sweep_shards_at :
    (max_idle now i : ℕ) (ms : List (List (Bytes × Bucket)))
    → shard_or_empty (get_elem? (sweep_shards max_idle now ms) i)
      ≡ sweep_shard max_idle now (shard_or_empty (get_elem? ms i))
unfolding sweep_shards sweep_shard
sweep_shards_at max_idle now i [] = refl
sweep_shards_at max_idle now zero (m ∷ ms) = refl
sweep_shards_at max_idle now (suc i) (m ∷ ms) = sweep_shards_at max_idle now i ms

length-sweep_shards :
    (max_idle now : ℕ) (ms : List (List (Bytes × Bucket)))
    → length (sweep_shards max_idle now ms) ≡ length ms
unfolding sweep_shards
length-sweep_shards max_idle now [] = refl
length-sweep_shards max_idle now (m ∷ ms) = ap suc (length-sweep_shards max_idle now ms)

pub sweep-IsValid :
    (max_idle now : ℕ) (l : RateLimiter) → IsValid l → IsValid (sweep_stale max_idle now l)
unfolding sweep_stale
sweep-IsValid max_idle now l v = record {
  width = length-sweep_shards max_idle now l.shards ∙ v.width;
  distinct = λ i.
      subst Distinct (sym (sweep_shards_at max_idle now i l.shards))
        (sweep_shard-Distinct max_idle now (map_of l i) (v.distinct i));
}

-- A bucket that is evicted would have been full.
stale_full :
    (rate capacity max_idle now t : ℕ) (b : Bucket)
    → capacity ≤ (max_idle * token) * rate
    → now ≤ t
    → is_stale max_idle now b ≡ true
    → refilled rate capacity t b ≡ capacity
unfolding is_stale refilled
stale_full rate capacity max_idle now t b small later stale =
    let idle : max_idle * token ≤ t - b.last_refill =
      omega (arith, ltb→lt (max_idle * 1000) ((now - b.last_refill) / 1000000) stale) in
    omega (arith, mul-le-mul_right rate idle)

level_of-keep_fresh :
    (rate capacity max_idle now t : ℕ) (o : Option Bucket)
    → capacity ≤ (max_idle * token) * rate
    → now ≤ t
    → level_of rate capacity t (keep_fresh max_idle now o) ≡ level_of rate capacity t o
level_of-keep_fresh rate capacity max_idle now t none small later = refl
level_of-keep_fresh rate capacity max_idle now t (some b) small later =
    elim (Bool-cases (is_stale max_idle now b)) [
      | inl stale ↦ rw stale (sym (stale_full rate capacity max_idle now t b small later stale))
      | inr fresh ↦ rw fresh refl
    ]

module _ (hash : Bytes → ℕ) where
  pub bucket_of-sweep :
      (max_idle now : ℕ) (who : Bytes) (l : RateLimiter)
      → IsValid l
      → bucket_of hash who (sweep_stale max_idle now l)
        ≡ keep_fresh max_idle now (bucket_of hash who l)
  unfolding bucket_of sweep_stale
  bucket_of-sweep max_idle now who l v =
      ap (lookup who) (sweep_shards_at max_idle now _ l.shards)
      ∙ lookup-sweep_shard max_idle now who _ (v.distinct _)

  pub level-sweep :
      (max_idle now t : ℕ) (who : Bytes) (l : RateLimiter)
      → IsValid l
      → l.capacity ≤ (max_idle * token) * l.rate
      → now ≤ t
      → level hash t who (sweep_stale max_idle now l) ≡ level hash t who l
  unfolding level sweep_stale
  level-sweep max_idle now t who l v small later =
      ap (level_of l.rate l.capacity t) (bucket_of-sweep max_idle now who l v)
      ∙ level_of-keep_fresh l.rate l.capacity max_idle now t _ small later
