-- ===== src/Middleware/RateLimiter/Unseen.antt =====
-- No later call tells whether a sweep was made.
use c_http_1_1_server.Base.{
  ℕ, ◌+◌, ◌-◌, ◌*◌, ◌≤◌, ◌≡◌, refl, sym, ap, ◌∙◌, arith, List, [], ◌∷◌, min, if◌then◌else◌, leb,
  Bytes, bytes_eq, ap₂,
}
use c_http_1_1_server.Middleware.RateLimiter.{RateLimiter, token, sweep_stale, allow, write_bucket}
use c_http_1_1_server.Middleware.RateLimiter.Level.{
  IsValid, level, level-allow, allow-IsValid, spent,
}
use c_http_1_1_server.Middleware.RateLimiter.Sweep.{level-sweep, sweep-IsValid}
use c_http_1_1_server.Middleware.RateLimiter.Budget.{Operation, call, sweep, AreTimed, answers}

module _ (hash : Bytes → ℕ) where
  -- Two states that no later call tells apart.
  record Alike (start : ℕ) (l l' : RateLimiter) : Type 0 where
    same_rate : l'.rate ≡ l.rate
    same_capacity : l'.capacity ≡ l.capacity
    levels : (t : ℕ) (who : Bytes) → start ≤ t → level hash t who l' ≡ level hash t who l

  allow-Alike :
      (start found now : ℕ) (ip : Bytes) (l l' : RateLimiter)
      → IsValid l
      → IsValid l'
      → start ≤ now
      → Alike start l l'
      → ((allow hash found now ip l').0 ≡ (allow hash found now ip l).0)
        × Alike now (allow hash found now ip l).1 (allow hash found now ip l').1
  unfolding allow write_bucket
  allow-Alike start found now ip l l' v v' h a =
      let (grant, after) = level-allow hash found now ip l v in
      let (grant', after') = level-allow hash found now ip l' v' in
      let here = a.levels now ip h in
      let same = grant' ∙ ap (leb token) here ∙ sym grant in
      (
        same,
        record {
          same_rate = a.same_rate;
          same_capacity = a.same_capacity;
          levels = λ t who late.
              after' t who
              ∙ ap₂ (λ x y. if bytes_eq ip who then x else y)
                  (λ i.
                    min (a.same_capacity i) ((here i - spent (same i)) + (t - now) * a.same_rate i))
                  (a.levels t who (omega arith))
              ∙ sym (after t who);
        },
      )

  sweep-Alike :
      (start max_idle now : ℕ) (l l' : RateLimiter)
      → IsValid l
      → IsValid l'
      → l.capacity ≤ (max_idle * token) * l.rate
      → start ≤ now
      → Alike start l l'
      → Alike now (sweep_stale max_idle now l) (sweep_stale max_idle now l')
  unfolding sweep_stale
  sweep-Alike start max_idle now l l' v v' small h a = record {
    same_rate = a.same_rate;
    same_capacity = a.same_capacity;
    levels = λ t who late.
        level-sweep hash max_idle now t who l' v'
          (omega (arith, small, a.same_capacity, ap (λ r. (max_idle * token) * r) a.same_rate)) late
        ∙ a.levels t who (omega arith)
        ∙ sym (level-sweep hash max_idle now t who l v small late);
  }

  answers-Alike :
      (start end : ℕ) (os : List Operation) (l l' : RateLimiter)
      → IsValid l
      → IsValid l'
      → AreTimed l.rate l.capacity start end os
      → Alike start l l'
      → answers hash os l' ≡ answers hash os l
  unfolding answers allow write_bucket sweep_stale
  answers-Alike start end [] l l' v v' h a = refl
  answers-Alike start end (call ip found now ∷ os) l l' v v' (h, h', hs) a =
      let (same, alike) = allow-Alike start found now ip l l' v v' (omega arith) a in
      ap₂ (λ b r. (ip, b) ∷ r) same
        (answers-Alike now end os (allow hash found now ip l).1 (allow hash found now ip l').1
          (allow-IsValid hash found now ip l v) (allow-IsValid hash found now ip l' v') hs alike)
  answers-Alike start end (sweep max_idle now ∷ os) l l' v v' (h, small, hs) a =
      answers-Alike now end os (sweep_stale max_idle now l) (sweep_stale max_idle now l')
        (sweep-IsValid max_idle now l v) (sweep-IsValid max_idle now l' v') hs
        (sweep-Alike start max_idle now l l' v v' small h a)

  -- Evicting every stale bucket changes no later answer, for any address and any sequence of calls
  -- and sweeps, if a bucket refills wholly within the time after which it is stale and the clock does
  -- not go back.
  pub answers-sweep :
      (max_idle now end : ℕ) (os : List Operation) (l : RateLimiter)
      → IsValid l
      → l.capacity ≤ (max_idle * token) * l.rate
      → AreTimed l.rate l.capacity now end os
      → answers hash os (sweep_stale max_idle now l) ≡ answers hash os l
  unfolding sweep_stale
  answers-sweep max_idle now end os l v small h =
      answers-Alike now end os l (sweep_stale max_idle now l) v (sweep-IsValid max_idle now l v) h
        (record {
          same_rate = refl;
          same_capacity = refl;
          levels = λ t who late. level-sweep hash max_idle now t who l v small late;
        })
