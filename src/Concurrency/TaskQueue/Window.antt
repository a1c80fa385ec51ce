-- ===== src/Concurrency/TaskQueue/Window.antt =====
-- The tasks that the ring buffer of `TaskQueue` holds, oldest first.
use c_http_1_1_server.Base.{
  ℕ, zero, suc, ◌+◌, ◌%◌, ◌<◌, ◌≡◌, ◌≢◌, refl, ap, ap₂, arith, List, [], ◌∷◌, ◌++◌, Option, length,
  set,
}
use c_http_1_1_server.Concurrency.TaskQueue.{TaskQueue, queue_capacity, slot}

module _ {A : Type 0} where
  -- `n` slots from `h` on, around the end of the array.
  abbrev pub window : List (Option A) → ℕ → ℕ → List (Option A)
  window ts h zero = []
  window ts h (suc n) = slot ts h ∷ window ts ((h + 1) % queue_capacity) n

  unfoldable pub contents : TaskQueue A → List (Option A)
  contents q = window q.tasks q.head q.buffer_len

  slot-set :
      (ts : List (Option A)) (i j : ℕ) (t : Option A)
      → i ≡ j
      → i < length ts
      → slot (set ts j t) i ≡ t
  slot-set [] i j t e h = absurd (omega arith)
  slot-set (x ∷ ts) zero zero t e h = refl
  slot-set (x ∷ ts) zero (suc j) t e h = absurd (omega arith)
  slot-set (x ∷ ts) (suc i) zero t e h = absurd (omega arith)
  slot-set (x ∷ ts) (suc i) (suc j) t e h = slot-set ts i j t (omega arith) (omega arith)

  slot-set_other :
      (ts : List (Option A)) (i j : ℕ) (t : Option A) → i ≢ j → slot (set ts j t) i ≡ slot ts i
  slot-set_other [] i j t h = refl
  slot-set_other (x ∷ ts) zero zero t h = absurd (h refl)
  slot-set_other (x ∷ ts) zero (suc j) t h = refl
  slot-set_other (x ∷ ts) (suc i) zero t h = refl
  slot-set_other (x ∷ ts) (suc i) (suc j) t h = slot-set_other ts i j t (λ e. h (ap suc e))

  -- A slot that is `d` behind the window's end is not one of the window.
  pub window-set :
      (ts : List (Option A)) (h n d j : ℕ) (t : Option A)
      → h < queue_capacity
      → n + d < queue_capacity
      → j ≡ (h + n + d) % queue_capacity
      → window (set ts j t) h n ≡ window ts h n
  window-set ts h zero d j t hh hn e = refl
  window-set ts h (suc n) d j t hh hn e =
      ap₂ (λ x y. x ∷ y) (slot-set_other ts h j t (λ same. omega (arith, same, e, hh, hn)))
        (window-set ts ((h + 1) % queue_capacity) n d j t (omega arith) (omega arith) (omega arith))

  pub window_push :
      (ts : List (Option A)) (h n j : ℕ) (t : Option A)
      → length ts ≡ queue_capacity
      → h < queue_capacity
      → n < queue_capacity
      → j ≡ (h + n) % queue_capacity
      → window (set ts j t) h (suc n) ≡ window ts h n ++ t ∷ []
  window_push ts h zero j t l hh hn e =
      ap (λ x. x ∷ []) (slot-set ts h j t (omega arith) (omega arith))
  window_push ts h (suc n) j t l hh hn e =
      ap₂ (λ x y. x ∷ y) (slot-set_other ts h j t (λ same. omega (arith, same, e, hh, hn)))
        (window_push ts ((h + 1) % queue_capacity) n j t l (omega arith) (omega arith)
          (omega arith))
