-- ===== src/Tests/Limiting.antt =====
-- The rate limiter of the server: 10 requests in a second, and a burst of 20.
use c_http_1_1_server.Base.{
  ℕ, ◌+◌, ◌-◌, ◌*◌, ◌≡◌, ◌≤◌, refl, arith, not, List, [], ◌∷◌, none, length, Bytes, bytes_eq, codes,
}
use c_http_1_1_server.Base.StringMap.{lookup, insert}
use c_http_1_1_server.Middleware.RateLimiter.{
  Bucket, RateLimiter, limiter, token, default_max_idle, is_stale, sweep_stale, shard_for,
  bucket_of, write_bucket, find_or_create, consume,
}
use c_http_1_1_server.Middleware.RateLimiter.Level
use c_http_1_1_server.Middleware.RateLimiter.Budget.{
  Operation, call, sweep, answers, granted, granted_budget,
}
use c_http_1_1_server.Middleware.RateLimiter.Unseen.{answers-sweep}
use c_http_1_1_server.Middleware.RateLimiter.Lifetime.{
  sweep_events, is_sound, any_stale, sweep_sound_iff, consume-sweep,
}

abbrev home : Bytes
home = codes "127.0.0.1"

abbrev other : Bytes
other = codes "10.0.0.1"

abbrev hash_of : Bytes → ℕ
hash_of ip = length ip

abbrev fresh : RateLimiter
fresh = limiter 10 20

abbrev requests : List Operation
requests = call home 0 1 ∷ call other 5 5 ∷ sweep 300 1000 ∷ call home 2000 2000 ∷ []

granted_budget_example :
    granted home (answers hash_of requests fresh) * token ≤ 20 * token + (3000 - 0) * 10
granted_budget_example =
    granted_budget hash_of home 0 3000 requests fresh (Level.limiter-IsValid 10 20) (omega arith)

abbrev used : RateLimiter
used = find_or_create hash_of 0 home fresh

used-IsValid : Level.IsValid used
used-IsValid = Level.find_or_create-IsValid hash_of 0 home fresh (Level.limiter-IsValid 10 20)

-- Five minutes and more after the start.
abbrev later_requests : List Operation
later_requests = call home 400000000001 400000000002 ∷ []

answers-sweep_example :
    answers hash_of later_requests (sweep_stale default_max_idle 400000000000 used)
    ≡ answers hash_of later_requests used
unfolding find_or_create write_bucket
answers-sweep_example =
    answers-sweep hash_of default_max_idle 400000000000 400000000002 later_requests used
      used-IsValid (omega arith) (omega arith)

abbrev idle_bucket : Bucket
idle_bucket = record { tokens = 20 * token; last_refill = 0 }

sweep_sound_iff_example :
    is_sound [] (sweep_events default_max_idle 400000000000 ((home, idle_bucket) ∷ []))
    ≡ not (any_stale default_max_idle 400000000000 ((home, idle_bucket) ∷ []))
sweep_sound_iff_example = sweep_sound_iff default_max_idle 400000000000 ((home, idle_bucket) ∷ [])

consume-sweep_example :
    consume hash_of 400000000001 home
      (sweep_stale default_max_idle 400000000000 (find_or_create hash_of 400000000000 home used))
    ≡ none
unfolding is_stale bucket_of find_or_create write_bucket shard_for lookup insert bytes_eq
consume-sweep_example =
    consume-sweep hash_of default_max_idle 400000000000 400000000000 400000000001 home idle_bucket
      used used-IsValid refl refl
