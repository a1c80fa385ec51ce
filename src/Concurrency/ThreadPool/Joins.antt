-- ===== src/Concurrency/ThreadPool/Joins.antt =====
-- `ThreadPool`'s workers together, and the joins of its destructor (src/concurrency/ThreadPool.cpp). A
-- worker takes a turn: it removes a task from the shared queue, or ends the task that it runs. The
-- workers take their turns in any order.
use c_http_1_1_server.Base.{
  ℕ, zero, suc, ◌+◌, ◌≤◌, ◌<◌, ◌≡◌, ◌≢◌, refl, sym, ap, ◌∙◌, subst, arith, inl, inr, true, List, [],
  ◌∷◌, ◌++◌, length, Option, none, some, get_elem?, set, eq_of_some,
}
use c_http_1_1_server.Concurrency.TaskQueue.{TaskQueue, Outcome, blocked, returned, remove}
use c_http_1_1_server.Concurrency.TaskQueue.Window.{contents}
use c_http_1_1_server.Concurrency.TaskQueue.Fifo.{IsValid, Removes, remove_outcome}
use c_http_1_1_server.Concurrency.ThreadPool.{worker_threads}

-- A worker at the head of its loop, in a task, or at its end.
pub data Worker (A : Type 0) : Type 0 where
  looping over : Worker A
  busy : A → Worker A

pub record ThreadPool (A : Type 0) : Type 0 where
  pub task_queue : TaskQueue A
  pub workers : List (Worker A)
  pub ran : List A

module _ {A : Type 0} where
  abbrev pub spawned : ℕ → List (Worker A)
  spawned zero = []
  spawned (suc n) = looping ∷ spawned n

  abbrev pub pool : TaskQueue A → ThreadPool A
  pool q = record { task_queue = q; workers = spawned worker_threads; ran = [] }

  -- What worker `i` does with the outcome of `remove`; `none` where it waits.
  abbrev pub removed : ℕ → ThreadPool A → Outcome A (Option A) → Option (ThreadPool A)
  removed i p blocked = none
  removed i p (returned none q) = some (record p { task_queue = q; workers = set p.workers i over })
  removed i p (returned (some task) q) =
      some (record p { task_queue = q; workers = set p.workers i (busy task) })

  -- A turn of worker `i`, in its state; `none` if there is none, or it is at its end, or waits.
  abbrev pub turn_of :
      (Option A → Option A) → ℕ → ThreadPool A → Option (Worker A) → Option (ThreadPool A)
  turn_of moved_from i p none = none
  turn_of moved_from i p (some over) = none
  turn_of moved_from i p (some looping) = removed i p (remove moved_from p.task_queue)
  turn_of moved_from i p (some (busy task)) =
      some (record p { workers = set p.workers i looping; ran = p.ran ++ task ∷ [] })

  unfoldable pub turn : (Option A → Option A) → ℕ → ThreadPool A → Option (ThreadPool A)
  turn moved_from i p = turn_of moved_from i p (get_elem? p.workers i)

  weight : Worker A → ℕ
  weight over = 0
  weight looping = 1
  weight (busy task) = 2

  load : List (Worker A) → ℕ
  unfolding weight
  load [] = 0
  load (w ∷ ws) = weight w + load ws

  load-set :
      (ws : List (Worker A)) (i : ℕ) (w x : Worker A)
      → get_elem? ws i ≡ some w
      → load (set ws i x) + weight w ≡ load ws + weight x
  unfolding load
  load-set [] i w x e = ground arith
  load-set (v ∷ ws) zero w x e = omega (arith, ap weight (eq_of_some e))
  load-set (v ∷ ws) (suc i) w x e = omega (arith, load-set ws i w x e)

  -- The turns that are left at most.
  unfoldable pub turns_left : ThreadPool A → ℕ
  unfolding load
  turns_left p = length (contents p.task_queue) + length (contents p.task_queue) + load p.workers

  -- The queue is right and shut down.
  abbrev pub IsClosing : ThreadPool A → Type 0
  IsClosing p = IsValid p.task_queue × (p.task_queue.shutdown ≡ true)

  -- A turn is possible for a worker that is not at its end, and leaves fewer turns.
  abbrev TakesTurn : ThreadPool A → Option (ThreadPool A) → Type 0
  TakesTurn p none = ⊥
  TakesTurn p (some p') = IsClosing p' × (turns_left p' < turns_left p)

  removed-TakesTurn :
      (i : ℕ) (p : ThreadPool A) (o : Outcome A (Option A))
      → IsClosing p
      → get_elem? p.workers i ≡ some looping
      → Removes p.task_queue o
      → TakesTurn p (removed i p o)
  unfolding turns_left weight
  removed-TakesTurn i p blocked (v, s) e (r, _) = ground (arith, s, r)
  removed-TakesTurn i p (returned none q) (v, s) e (inl (popped, v', s')) =
      ((v', s' ∙ s), omega (arith, ap length popped, load-set p.workers i looping over e))
  removed-TakesTurn i p (returned none q) (v, s) e (inr (_, nothing, _, same)) = (
    (subst IsValid (sym same) v, ap (λ (x : TaskQueue A). x.shutdown) same ∙ s),
    omega (arith, ap (λ x. length (contents x)) same, load-set p.workers i looping over e),
  )
  removed-TakesTurn i p (returned (some t) q) (v, s) e (inl (popped, v', s')) =
      ((v', s' ∙ s), omega (arith, ap length popped, load-set p.workers i looping (busy t) e))
  removed-TakesTurn i p (returned (some t) q) (v, s) e (inr (_, _, absent, _)) =
      ground (arith, absent)

  turn_of-TakesTurn :
      (moved_from : Option A → Option A) (i : ℕ) (p : ThreadPool A) (w : Worker A)
      → IsClosing p
      → get_elem? p.workers i ≡ some w
      → w ≢ over
      → TakesTurn p (turn_of moved_from i p (some w))
  unfolding turns_left weight
  turn_of-TakesTurn moved_from i p over c e n = absurd (n refl)
  turn_of-TakesTurn moved_from i p looping c e n =
      removed-TakesTurn i p (remove moved_from p.task_queue) c e
        (remove_outcome moved_from p.task_queue c.0)
  turn_of-TakesTurn moved_from i p (busy t) c e n =
      (c, omega (arith, load-set p.workers i (busy t) looping e))

  turn-TakesTurn :
      (moved_from : Option A → Option A) (i : ℕ) (p : ThreadPool A) (w : Worker A)
      → IsClosing p
      → get_elem? p.workers i ≡ some w
      → w ≢ over
      → TakesTurn p (turn moved_from i p)
  unfolding turn
  turn-TakesTurn moved_from i p w c e n =
      subst (λ o. TakesTurn p (turn_of moved_from i p o)) (sym e)
        (turn_of-TakesTurn moved_from i p w c e n)

  abbrev pub and_then :
      (ThreadPool A → Option (ThreadPool A)) → Option (ThreadPool A) → Option (ThreadPool A)
  and_then go none = none
  and_then go (some p) = go p

  -- Turns of the workers that are named, one after the other; `none` if one of them cannot take its turn.
  unfoldable pub turns : (Option A → Option A) → List ℕ → ThreadPool A → Option (ThreadPool A)
  turns moved_from [] p = some p
  turns moved_from (i ∷ schedule) p = and_then (turns moved_from schedule) (turn moved_from i p)

  -- What a turn that was taken has done.
  taken :
      (moved_from : Option A → Option A) (i : ℕ) (p p' : ThreadPool A) (o : Option (Worker A))
      → IsClosing p
      → get_elem? p.workers i ≡ o
      → turn_of moved_from i p o ≡ some p'
      → IsClosing p' × (turns_left p' < turns_left p)
  taken moved_from i p p' none c e h = ground (arith, h)
  taken moved_from i p p' (some over) c e h = ground (arith, h)
  taken moved_from i p p' (some looping) c e h =
      subst (TakesTurn p) h (turn_of-TakesTurn moved_from i p looping c e (λ x. ground (arith, x)))
  taken moved_from i p p' (some (busy t)) c e h =
      subst (TakesTurn p) h (turn_of-TakesTurn moved_from i p (busy t) c e (λ x. ground (arith, x)))

  turn_taken :
      (moved_from : Option A → Option A) (i : ℕ) (p p' : ThreadPool A)
      → IsClosing p
      → turn moved_from i p ≡ some p'
      → IsClosing p' × (turns_left p' < turns_left p)
  unfolding turn
  turn_taken moved_from i p p' c h = taken moved_from i p p' (get_elem? p.workers i) c refl h

  possible :
      (p : ThreadPool A) (o : Option (ThreadPool A))
      → TakesTurn p o
      → (p' : ThreadPool A) × (o ≡ some p')
  possible p none k = absurd k
  possible p (some p') k = (p', refl)

  -- At most so many turns, and no worker that waits.
  abbrev pub IsEnding : (Option A → Option A) → ℕ → ThreadPool A → ThreadPool A → Type 0
  IsEnding moved_from n p p' =
      (n + turns_left p' ≤ turns_left p)
      × ((i : ℕ) (w : Worker A)
          → get_elem? p'.workers i ≡ some w
          → w ≢ over
          → (after : ThreadPool A) × (turn moved_from i p' ≡ some after))

  IsEnding-cons :
      (moved_from : Option A → Option A) (i : ℕ) (schedule : List ℕ) (p p' : ThreadPool A)
      (o : Option (ThreadPool A))
      → IsClosing p
      → ((q : ThreadPool A)
          → IsClosing q
          → turns moved_from schedule q ≡ some p'
          → IsEnding moved_from (length schedule) q p')
      → turn moved_from i p ≡ o
      → and_then (turns moved_from schedule) o ≡ some p'
      → IsEnding moved_from (suc (length schedule)) p p'
  IsEnding-cons moved_from i schedule p p' none c rest e h = ground (arith, h)
  IsEnding-cons moved_from i schedule p p' (some q) c rest e h =
      let (c', fewer) = turn_taken moved_from i p q c e in
      let (bound, goes_on) = rest q c' h in (omega (arith, bound, fewer), goes_on)

  -- Once the queue is shut down and its ring is right, the workers come to their ends in whatever
  -- order they take turns: a schedule has at most two turns for each task that waits, two for each
  -- that runs and one for each worker at the head of its loop. A worker that is not at its end can
  -- always take a turn: none waits for the queue.
  pub pool_ends :
      (moved_from : Option A → Option A) (schedule : List ℕ) (p p' : ThreadPool A)
      → IsClosing p
      → turns moved_from schedule p ≡ some p'
      → IsEnding moved_from (length schedule) p p'
  unfolding turns
  pool_ends moved_from [] p p' c h = (
    omega (arith, ap turns_left (eq_of_some h)),
    λ i w e n.
        possible p' (turn moved_from i p')
          (turn-TakesTurn moved_from i p' w (subst IsClosing (eq_of_some h) c) e n),
  )
  pool_ends moved_from (i ∷ schedule) p p' c h =
      IsEnding-cons moved_from i schedule p p' (turn moved_from i p) c
        (λ q c' k. pool_ends moved_from schedule q p' c' k) refl h
