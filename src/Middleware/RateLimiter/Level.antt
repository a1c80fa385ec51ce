-- ===== src/Middleware/RateLimiter/Level.antt =====
-- The tokens of an address at a time: what a call of `allow` then finds, whatever is stored.
use c_http_1_1_server.Base.{
  ℕ, zero, suc, ◌+◌, ◌-◌, ◌*◌, ◌≤◌, ◌<◌, ◌≡◌, ◌≢◌, refl, sym, ap, subst, ◌∙◌, arith, Bool, true,
  false, inl, inr, Bool-cases, List, [], Option, none, some, min, length, length-set, get_elem?,
  set, get_elem?-set_self, get_elem?-set_other, if◌then◌else◌, leb, ◌==◌, ==_iff, Bytes, bytes_eq,
  bytes_eq_iff,
}
use c_http_1_1_server.Base.StringMap.{lookup, insert, lookup-insert, Distinct, insert-Distinct}
use native.Mathlib.Nat.{mul-le-mul_right, add-mul}
use c_http_1_1_server.Middleware.RateLimiter.{
  Bucket, RateLimiter, empty_shards, limiter, num_shards, token, refilled, consume_bucket,
  bucket_or_new, shard_or_empty, shard_for, bucket_of, write_bucket, find_or_create, allow,
}

-- The map of a shard.
abbrev pub map_of : RateLimiter → ℕ → List (Bytes × Bucket)
map_of l i = shard_or_empty (get_elem? l.shards i)

pub record IsValid (l : RateLimiter) : Type 0 where
  pub width : length l.shards ≡ num_shards
  pub distinct : (i : ℕ) → Distinct (map_of l i)

empty_shards_at : (n i : ℕ) → shard_or_empty (get_elem? (empty_shards n) i) ≡ []
empty_shards_at zero i = refl
empty_shards_at (suc n) zero = refl
empty_shards_at (suc n) (suc i) = empty_shards_at n i

pub limiter-IsValid :
    (requests_per_second burst_capacity : ℕ) → IsValid (limiter requests_per_second burst_capacity)
limiter-IsValid requests_per_second burst_capacity = record {
  width = refl;
  distinct = λ i. subst Distinct (sym (empty_shards_at num_shards i)) tt;
}

-- An address without a bucket has all tokens.
abbrev pub level_of : ℕ → ℕ → ℕ → Option Bucket → ℕ
level_of rate capacity now none = capacity
level_of rate capacity now (some b) = refilled rate capacity now b

module _ (hash : Bytes → ℕ) where
  unfoldable pub level : ℕ → Bytes → RateLimiter → ℕ
  level now ip l = level_of l.rate l.capacity now (bucket_of hash ip l)

  shard_for_bound : (ip : Bytes) (l : RateLimiter) → IsValid l → shard_for hash ip < length l.shards
  unfolding shard_for
  shard_for_bound ip l v = omega (arith, v.width)

  -- The map of a shard after a write to another shard, and to itself.
  map_of-write :
      (ip : Bytes) (b : Bucket) (l : RateLimiter) (j : ℕ)
      → IsValid l
      → map_of (write_bucket hash ip b l) j ≡ (
          if shard_for hash ip == j then insert ip b (map_of l (shard_for hash ip)) else map_of l j)
  unfolding write_bucket
  map_of-write ip b l j v =
      let i = shard_for hash ip in
      let m = insert ip b (map_of l i) in
      elim (Bool-cases (i == j)) [
        | inl same ↦
            let e = (==_iff i j).0 same in
            rw same (
              ap shard_or_empty (
                subst (λ k. get_elem? (set l.shards i m) k ≡ some m) e
                  (get_elem?-set_self l.shards i m (shard_for_bound ip l v))))
        | inr differ ↦
            let other : i ≢ j = λ e. ground (arith, differ, (==_iff i j).1 e) in
            rw differ (ap shard_or_empty (get_elem?-set_other l.shards i j m other))
      ]

  write-IsValid :
      (ip : Bytes) (b : Bucket) (l : RateLimiter) → IsValid l → IsValid (write_bucket hash ip b l)
  unfolding write_bucket
  write-IsValid ip b l v =
      let i = shard_for hash ip in
      record {
        width = length-set l.shards i _ ∙ v.width;
        distinct = λ j. subst Distinct (sym (map_of-write ip b l j v)) (elim (Bool-cases (i == j)) [
          | inl same ↦ rw same (insert-Distinct ip b (map_of l i) (v.distinct i))
          | inr differ ↦ rw differ (v.distinct j)
        ]);
      }

  pub bucket_of-write :
      (ip who : Bytes) (b : Bucket) (l : RateLimiter)
      → IsValid l
      → bucket_of hash who (write_bucket hash ip b l)
        ≡ (if bytes_eq ip who then some b else bucket_of hash who l)
  unfolding bucket_of
  bucket_of-write ip who b l v =
      let i = shard_for hash ip in
      let j = shard_for hash who in
      ap (lookup who) (map_of-write ip b l j v) ∙ (elim (Bool-cases (i == j)) [
        | inl same ↦
            let e = (==_iff i j).0 same in
            rw same (
              lookup-insert ip who b (map_of l i)
              ∙ ap (λ k. if bytes_eq ip who then some b else lookup who (map_of l k)) e)
        | inr differ ↦
            let apart : bytes_eq ip who ≡ false = ground (
              arith,
              differ,
              bytes_eq_iff ip who,
              λ (e : ip ≡ who). ap (shard_for hash) e,
              ==_iff i j,
            ) in
            rw (differ, apart) refl
      ])

  pub find_or_create-IsValid :
      (found : ℕ) (ip : Bytes) (l : RateLimiter)
      → IsValid l
      → IsValid (find_or_create hash found ip l)
  unfolding find_or_create
  find_or_create-IsValid found ip l v = write-IsValid ip _ l v

  pub allow-IsValid :
      (found now : ℕ) (ip : Bytes) (l : RateLimiter)
      → IsValid l
      → IsValid (allow hash found now ip l).1
  unfolding allow
  allow-IsValid found now ip l v = write-IsValid ip _ l v

-- What a granted call takes.
abbrev pub spent : Bool → ℕ
spent true = token
spent false = 0

consume_level :
    (r c found now t : ℕ) (o : Option Bucket)
    → let (allowed, b) = consume_bucket r c now (bucket_or_new c found o) in
      (allowed ≡ leb token (level_of r c now o))
      × (refilled r c t b ≡ min c (level_of r c now o - spent allowed + (t - now) * r))
unfolding consume_bucket refilled
consume_level r c found now t none = ground arith
consume_level r c found now t (some b) = ground arith

module _ (hash : Bytes → ℕ) where
  -- A call is granted exactly if a whole token is there, and takes it; afterwards the tokens of the
  -- address grow from what is left, and those of any other address are untouched.
  pub level-allow :
      (found now : ℕ) (ip : Bytes) (l : RateLimiter)
      → IsValid l
      → let (allowed, after) = allow hash found now ip l in
        (allowed ≡ leb token (level hash now ip l))
        × ((t : ℕ) (who : Bytes)
            → level hash t who after ≡ (
                if bytes_eq ip who
                then min l.capacity (level hash now ip l - spent allowed + (t - now) * l.rate)
                else level hash t who l))
  unfolding allow level
  level-allow found now ip l v =
      let o = bucket_of hash ip l in
      let b = (consume_bucket l.rate l.capacity now (bucket_or_new l.capacity found o)).1 in
      let granted = (consume_level l.rate l.capacity found now now o).0 in
      (
        granted,
        λ t who.
            ap (level_of l.rate l.capacity t) (bucket_of-write hash ip who b l v)
            ∙ (elim (Bool-cases (bytes_eq ip who)) [
              | inl same ↦ rw same (consume_level l.rate l.capacity found now t o).1
              | inr other ↦ rw other refl
            ]),
      )

  -- The tokens never pass the capacity.
  pub level_bounded : (t : ℕ) (who : Bytes) (l : RateLimiter) → level hash t who l ≤ l.capacity
  unfolding level refilled
  level_bounded t who l = bounded (bucket_of hash who l)
    where
      bounded : (o : Option Bucket) → level_of l.rate l.capacity t o ≤ l.capacity
      bounded none = omega arith
      bounded (some b) = omega arith

  -- In a span of time the tokens of an address grow by at most the rate times the span.
  pub level_growth :
      (s t : ℕ) (who : Bytes) (l : RateLimiter)
      → s ≤ t
      → level hash t who l ≤ level hash s who l + (t - s) * l.rate
  unfolding level refilled
  level_growth s t who l h = grows (bucket_of hash who l)
    where
      grows :
          (o : Option Bucket)
          → level_of l.rate l.capacity t o ≤ level_of l.rate l.capacity s o + (t - s) * l.rate
      grows none = omega arith
      grows (some b) =
          let m : (t - b.last_refill) * l.rate ≤ ((s - b.last_refill) + (t - s)) * l.rate =
            mul-le-mul_right l.rate (omega arith) in
          omega (arith, m, add-mul (s - b.last_refill) (t - s) l.rate)
