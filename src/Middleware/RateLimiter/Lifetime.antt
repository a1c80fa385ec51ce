-- ===== src/Middleware/RateLimiter/Lifetime.antt =====
-- How long a bucket and its mutex live, against what `RateLimiter.cpp` does with them.
use c_http_1_1_server.Base.{
  ℕ, ◌≡◌, refl, ap, ◌∙◌, arith, Bool, true, false, not, ◌&&◌, ◌||◌, List, [], ◌∷◌, none, some,
  if◌then◌else◌, Bytes, bytes_eq, bytes_eq_iff,
}
use c_http_1_1_server.Middleware.RateLimiter.{
  Bucket, RateLimiter, is_stale, sweep_stale, bucket_or_new, bucket_of, write_bucket,
  find_or_create, consume, consume_found, consume_bucket, allow,
}
use c_http_1_1_server.Middleware.RateLimiter.Level.{
  IsValid, bucket_of-write, find_or_create-IsValid,
}
use c_http_1_1_server.Middleware.RateLimiter.Sweep.{keep_fresh, bucket_of-sweep}

-- What a sweep does to the mutex of a bucket.
pub data MutexEvent : Type 0 where
  locked destroyed unlocked : Bytes → MutexEvent

-- The body of the loop over a shard: the guard is released at its end, after the erasure.
unfoldable pub sweep_events : ℕ → ℕ → List (Bytes × Bucket) → List MutexEvent
sweep_events max_idle now [] = []
sweep_events max_idle now ((ip, b) ∷ m) =
    if is_stale max_idle now b
    then locked ip ∷ destroyed ip ∷ unlocked ip ∷ sweep_events max_idle now m
    else locked ip ∷ unlocked ip ∷ sweep_events max_idle now m

abbrev pub is_among : Bytes → List Bytes → Bool
is_among k [] = false
is_among k (j ∷ js) = bytes_eq j k || is_among k js

-- No mutex is touched after its end; `gone` are those that have ended.
unfoldable pub is_sound : List Bytes → List MutexEvent → Bool
is_sound gone [] = true
is_sound gone (locked k ∷ es) = not (is_among k gone) && is_sound gone es
is_sound gone (destroyed k ∷ es) = is_sound (k ∷ gone) es
is_sound gone (unlocked k ∷ es) = not (is_among k gone) && is_sound gone es

abbrev pub any_stale : ℕ → ℕ → List (Bytes × Bucket) → Bool
any_stale max_idle now [] = false
any_stale max_idle now ((ip, b) ∷ m) = is_stale max_idle now b || any_stale max_idle now m

-- A sweep touches no mutex after its end exactly if it evicts nothing: whenever a bucket is stale, the
-- guard that holds its mutex unlocks it after the bucket is destroyed.
pub sweep_sound_iff :
    (max_idle now : ℕ) (m : List (Bytes × Bucket))
    → is_sound [] (sweep_events max_idle now m) ≡ not (any_stale max_idle now m)
unfolding is_sound sweep_events
sweep_sound_iff max_idle now [] = refl
sweep_sound_iff max_idle now ((ip, b) ∷ m) =
    ground (arith, sweep_sound_iff max_idle now m, bytes_eq_iff ip ip)

module _ (hash : Bytes → ℕ) where
  bucket_of-write_self :
      (ip : Bytes) (b : Bucket) (l : RateLimiter)
      → IsValid l
      → bucket_of hash ip (write_bucket hash ip b l) ≡ some b
  bucket_of-write_self ip b l v =
      bucket_of-write hash ip ip b l v
      ∙ ap (λ t. if t then some b else bucket_of hash ip l) ((bytes_eq_iff ip ip).1 refl)

  -- With no other thread between them, the two steps of a call answer as `allow` does.
  pub consume-find_or_create :
      (found now : ℕ) (ip : Bytes) (l : RateLimiter)
      → IsValid l
      → (after : RateLimiter) × (consume hash now ip (find_or_create hash found ip l)
          ≡ some ((allow hash found now ip l).0, after))
  unfolding consume allow find_or_create write_bucket
  consume-find_or_create found now ip l v =
      let b = bucket_or_new l.capacity found (bucket_of hash ip l) in
      let held = write_bucket hash ip b l in
      (
        write_bucket hash ip (consume_bucket l.rate l.capacity now b).1 held,
        ap (consume_found hash now ip held) (bucket_of-write_self ip b l v),
      )

  -- A call that has found a stale bucket loses it if a sweep comes before its second step: the code
  -- then uses a pointer to a bucket that is destroyed.
  pub consume-sweep :
      (max_idle found now later : ℕ) (ip : Bytes) (b : Bucket) (l : RateLimiter)
      → IsValid l
      → bucket_of hash ip l ≡ some b
      → is_stale max_idle now b ≡ true
      → consume hash later ip (sweep_stale max_idle now (find_or_create hash found ip l)) ≡ none
  unfolding consume find_or_create
  consume-sweep max_idle found now later ip b l v held stale =
      let kept = write_bucket hash ip (bucket_or_new l.capacity found (bucket_of hash ip l)) l in
      let swept = sweep_stale max_idle now kept in
      ap (consume_found hash later ip swept) (
        bucket_of-sweep hash max_idle now ip kept (find_or_create-IsValid hash found ip l v)
        ∙ ap (keep_fresh max_idle now)
            (bucket_of-write_self ip _ l v ∙ ap (λ o. some (bucket_or_new l.capacity found o)) held)
        ∙ ap (λ t. if t then none else some b) stale)
