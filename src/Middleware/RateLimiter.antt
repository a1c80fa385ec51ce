-- ===== src/Middleware/RateLimiter.antt =====
-- `RateLimiter` (include/middleware/RateLimiter.h, src/middleware/RateLimiter.cpp). Times are numbers
-- of nanoseconds. Tokens are counted exactly, in billionths, where the code has a `double`: a rate of
-- whole tokens in a second adds a whole number of billionths in a nanosecond, and rounding is not
-- modelled. `hash` is `std::hash<std::string>`.
pub mod Level
pub mod Budget
pub mod Sweep
pub mod Unseen
pub mod Lifetime
use c_http_1_1_server.Base.{
  ℕ, zero, suc, ◌+◌, ◌-◌, ◌*◌, ◌/◌, ◌%◌, Bool, true, false, List, [], ◌∷◌, Option, none, some, min,
  get_elem?, set, if◌then◌else◌, ltb, leb, Bytes,
}
use c_http_1_1_server.Base.StringMap.{lookup, insert}

pub record Bucket : Type 0 where
  pub tokens : ℕ
  pub last_refill : ℕ

abbrev pub num_shards : ℕ
num_shards = 16

-- One token, in billionths.
abbrev pub token : ℕ
token = 1000000000

-- `rate` in whole tokens in a second, `capacity` in billionths.
pub record RateLimiter : Type 0 where
  pub rate : ℕ
  pub capacity : ℕ
  pub shards : List (List (Bytes × Bucket))

abbrev pub empty_shards : ℕ → List (List (Bytes × Bucket))
empty_shards zero = []
empty_shards (suc n) = [] ∷ empty_shards n

abbrev pub limiter : ℕ → ℕ → RateLimiter
limiter requests_per_second burst_capacity = record {
  rate = requests_per_second;
  capacity = burst_capacity * token;
  shards = empty_shards num_shards;
}

-- `shards_[i]`.
abbrev pub shard_or_empty : Option (List (Bytes × Bucket)) → List (Bytes × Bucket)
shard_or_empty none = []
shard_or_empty (some m) = m

-- The refill of a bucket at a time.
unfoldable pub refilled : ℕ → ℕ → ℕ → Bucket → ℕ
refilled rate capacity now b = min capacity (b.tokens + (now - b.last_refill) * rate)

-- The refill and the consumption, under the lock of the bucket.
unfoldable pub consume_bucket : ℕ → ℕ → ℕ → Bucket → Bool × Bucket
unfolding refilled
consume_bucket rate capacity now b =
    let tokens = refilled rate capacity now b in
    if leb token tokens
    then (true, record { tokens = tokens - token; last_refill = now })
    else (false, record { tokens = tokens; last_refill = now })

-- The bucket that `find` gives, or a new one.
abbrev pub bucket_or_new : ℕ → ℕ → Option Bucket → Bucket
bucket_or_new capacity now none = record { tokens = capacity; last_refill = now }
bucket_or_new capacity now (some b) = b

-- More than `max_idle` seconds, after the time is cut to whole milliseconds.
unfoldable pub is_stale : ℕ → ℕ → Bucket → Bool
is_stale max_idle now b = ltb (max_idle * 1000) ((now - b.last_refill) / 1000000)

-- The default of `max_idle`.
abbrev pub default_max_idle : ℕ
default_max_idle = 300

unfoldable pub sweep_shard : ℕ → ℕ → List (Bytes × Bucket) → List (Bytes × Bucket)
sweep_shard max_idle now [] = []
sweep_shard max_idle now ((ip, b) ∷ m) =
    if is_stale max_idle now b
    then sweep_shard max_idle now m
    else (ip, b) ∷ sweep_shard max_idle now m

unfoldable pub sweep_shards : ℕ → ℕ → List (List (Bytes × Bucket)) → List (List (Bytes × Bucket))
unfolding sweep_shard
sweep_shards max_idle now [] = []
sweep_shards max_idle now (m ∷ ms) = sweep_shard max_idle now m ∷ sweep_shards max_idle now ms

unfoldable pub sweep_stale : ℕ → ℕ → RateLimiter → RateLimiter
unfolding sweep_shards
sweep_stale max_idle now l = record l { shards = sweep_shards max_idle now l.shards }

module _ (hash : Bytes → ℕ) where
  unfoldable pub shard_for : Bytes → ℕ
  shard_for ip = hash ip % num_shards

  -- The bucket of an address, if it has one.
  unfoldable pub bucket_of : Bytes → RateLimiter → Option Bucket
  unfolding shard_for
  bucket_of ip l = lookup ip (shard_or_empty (get_elem? l.shards (shard_for ip)))

  -- The bucket of an address is written.
  unfoldable pub write_bucket : Bytes → Bucket → RateLimiter → RateLimiter
  unfolding shard_for
  write_bucket ip b l = record l {
    shards =
        set l.shards (shard_for ip)
          (insert ip b (shard_or_empty (get_elem? l.shards (shard_for ip))));
  }

  -- The lookup under the lock of the shard, at the time `found`.
  unfoldable pub find_or_create : ℕ → Bytes → RateLimiter → RateLimiter
  unfolding bucket_of write_bucket
  find_or_create found ip l = write_bucket ip (bucket_or_new l.capacity found (bucket_of ip l)) l

  -- The step under the lock of the bucket, at the time `now`; `none` if the bucket that was found is
  -- not there any more.
  abbrev pub consume_found : ℕ → Bytes → RateLimiter → Option Bucket → Option (Bool × RateLimiter)
  consume_found now ip l none = none
  consume_found now ip l (some b) =
      let (allowed, b') = consume_bucket l.rate l.capacity now b in
      some (allowed, write_bucket ip b' l)

  unfoldable pub consume : ℕ → Bytes → RateLimiter → Option (Bool × RateLimiter)
  unfolding consume_bucket write_bucket bucket_of
  consume now ip l = consume_found now ip l (bucket_of ip l)

  -- A call with no other thread between its two steps.
  unfoldable pub allow : ℕ → ℕ → Bytes → RateLimiter → Bool × RateLimiter
  unfolding bucket_of write_bucket consume_bucket
  allow found now ip l =
      let (allowed, b) =
        consume_bucket l.rate l.capacity now (bucket_or_new l.capacity found (bucket_of ip l)) in
      (allowed, write_bucket ip b l)
