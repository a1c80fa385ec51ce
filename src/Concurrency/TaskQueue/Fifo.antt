-- ===== src/Concurrency/TaskQueue/Fifo.antt =====
-- `TaskQueue` is a bounded first-in first-out queue, whatever the order in which threads call it.
use c_http_1_1_server.Base.{
  ℕ, zero, suc, ◌+◌, ◌-◌, ◌%◌, ◌≤◌, ◌<◌, ◌≡◌, ◌⊎◌, inl, inr, refl, sym, ap, subst, ◌∙◌, arith, List,
  [], ◌∷◌, ◌++◌, append_assoc, length, length-set, Option, none, set, Bool, true, false,
}
use c_http_1_1_server.Concurrency.TaskQueue
use c_http_1_1_server.Concurrency.TaskQueue.{
  TaskQueue, Outcome, blocked, returned, queue_capacity, slot, submit, remove, stop,
}
use c_http_1_1_server.Concurrency.TaskQueue.Window.{window, contents, window-set, window_push}

module _ {A : Type 0} where
  pub record IsValid (q : TaskQueue A) : Type 0 where
    pub size : length q.tasks ≡ queue_capacity
    pub head_lt : q.head < queue_capacity
    pub bounded : q.buffer_len ≤ queue_capacity
    pub tail_eq : q.tail ≡ (q.head + q.buffer_len) % queue_capacity

  -- What a call of `submit` may do.
  abbrev pub Submits : Option A → TaskQueue A → Outcome A Bool → Type 0
  Submits t q blocked = (q.shutdown ≡ false) × (length (contents q) ≡ queue_capacity)
  Submits t q (returned true q') =
      (q.shutdown ≡ false)
      × (length (contents q) < queue_capacity)
      × (contents q' ≡ contents q ++ t ∷ [])
      × IsValid q'
      × (q'.shutdown ≡ false)
  Submits t q (returned false q') = (q.shutdown ≡ true) × (q' ≡ q)

  -- What a call of `remove` may do.
  abbrev pub Removes : TaskQueue A → Outcome A (Option A) → Type 0
  Removes q blocked = (q.shutdown ≡ false) × (contents q ≡ [])
  Removes q (returned t q') =
      ((contents q ≡ t ∷ contents q') × IsValid q' × (q'.shutdown ≡ q.shutdown))
      ⊎ ((q.shutdown ≡ true) × (contents q ≡ []) × (t ≡ none) × (q' ≡ q))

  length-window : (ts : List (Option A)) (h n : ℕ) → length (window ts h n) ≡ n
  length-window ts h zero = refl
  length-window ts h (suc n) = ap suc (length-window ts ((h + 1) % queue_capacity) n)

  submit_pushes :
      (t : Option A) (q : TaskQueue A)
      → IsValid q
      → q.shutdown ≡ false
      → q.buffer_len < queue_capacity
      → Submits t q (
          returned true (record q {
            tasks = set q.tasks q.tail t;
            tail = (q.tail + 1) % queue_capacity;
            buffer_len = q.buffer_len + 1;
          }))
  unfolding contents
  submit_pushes t q v s l = (
    s,
    omega (arith, length-window q.tasks q.head q.buffer_len),
    subst (λ n. window (set q.tasks q.tail t) q.head n ≡ contents q ++ t ∷ [])
        {x = suc q.buffer_len} (omega arith)
        (window_push q.tasks q.head q.buffer_len q.tail t v.size v.head_lt l v.tail_eq),
    record {
      size = length-set q.tasks q.tail t ∙ v.size;
      head_lt = v.head_lt;
      bounded = omega arith;
      tail_eq = omega (arith, v.tail_eq, v.head_lt);
    },
    s,
  )

  remove_pops :
      (moved_from : Option A → Option A) (q : TaskQueue A) (n : ℕ)
      → IsValid q
      → q.buffer_len ≡ suc n
      → let q' = record q {
        tasks = set q.tasks q.head (moved_from (slot q.tasks q.head));
        head = (q.head + 1) % queue_capacity;
        buffer_len = n;
      } in
        (contents q ≡ slot q.tasks q.head ∷ contents q') × IsValid q'
  unfolding contents
  remove_pops moved_from q n v e =
      let t = moved_from (slot q.tasks q.head) in
      let h' = (q.head + 1) % queue_capacity in
      (
        ap (window q.tasks q.head) e
            ∙ ap (◌∷◌ (slot q.tasks q.head)) (
                sym (
                  window-set q.tasks h' n (1023 - n) q.head t (omega (arith, v.head_lt))
                    (omega (arith, v.bounded, e)) (omega (arith, v.bounded, v.head_lt, e)))),
        record {
          size = length-set q.tasks q.head t ∙ v.size;
          head_lt = omega arith;
          bounded = omega (arith, v.bounded, e);
          tail_eq = omega (arith, v.tail_eq, v.head_lt, e);
        },
      )

  -- In a queue whose ring is right, `submit` waits exactly if it is open and full; it refuses if the queue is shut down; and
  -- else it puts the task behind those that wait.
  submit_outcome : (t : Option A) (q : TaskQueue A) → IsValid q → Submits t q (submit t q)
  unfolding submit contents
  submit_outcome t q v =
      ground (arith, submit_pushes t q v, length-window q.tasks q.head q.buffer_len, v.bounded)

  -- In a queue whose ring is right, `remove` waits exactly if it is open and empty; it takes the task that has waited longest,
  -- also after a shutdown; and it gives the empty function if the queue is shut down and empty.
  pub remove_outcome :
      (moved_from : Option A → Option A) (q : TaskQueue A)
      → IsValid q
      → Removes q (remove moved_from q)
  unfolding remove contents
  remove_outcome moved_from q v = ground (arith, remove_pops moved_from q (q.buffer_len - 1) v)

  length-contents : (q : TaskQueue A) → length (contents q) ≡ q.buffer_len
  unfolding contents
  length-contents q = length-window q.tasks q.head q.buffer_len

  empty-IsValid : IsValid TaskQueue.empty
  empty-IsValid = record {
    size = refl;
    head_lt = omega arith;
    bounded = omega arith;
    tail_eq = refl;
  }

  contents-empty : contents {A = A} TaskQueue.empty ≡ []
  unfolding contents
  contents-empty = refl

  stop_keeps : (q : TaskQueue A) → IsValid q → (contents (stop q) ≡ contents q) × IsValid (stop q)
  unfolding stop contents
  stop_keeps q v = (
    refl,
    record { size = v.size; head_lt = v.head_lt; bounded = v.bounded; tail_eq = v.tail_eq },
  )

  -- The history of a queue: the tasks accepted and those handed out, in order. Any thread may make
  -- the next call.
  pub data History (moved_from : Option A → Option A)
      : List (Option A) → List (Option A) → TaskQueue A → Type 0 where
    started : History moved_from [] [] TaskQueue.empty
    submitted :
        (t : Option A) (a r : List (Option A)) (q q' : TaskQueue A)
        → History moved_from a r q
        → submit t q ≡ returned true q'
        → History moved_from (a ++ t ∷ []) r q'
    refused :
        (t : Option A) (a r : List (Option A)) (q q' : TaskQueue A)
        → History moved_from a r q
        → submit t q ≡ returned false q'
        → History moved_from a r q'
    removed :
        (t : Option A) (a r : List (Option A)) (q q' : TaskQueue A)
        → History moved_from a r q
        → 0 < q.buffer_len
        → remove moved_from q ≡ returned t q'
        → History moved_from a (r ++ t ∷ []) q'
    drained :
        (t : Option A) (a r : List (Option A)) (q q' : TaskQueue A)
        → History moved_from a r q
        → q.buffer_len ≡ 0
        → remove moved_from q ≡ returned t q'
        → History moved_from a r q'
    stopped :
        (a r : List (Option A)) (q : TaskQueue A)
        → History moved_from a r q
        → History moved_from a r (stop q)

  -- Every task that was accepted was handed out, in the order of acceptance, or waits in the ring:
  -- none is lost, repeated or overtaken. This holds after a shutdown too.
  pub history_fifo :
      (moved_from : Option A → Option A) (a r : List (Option A)) (q : TaskQueue A)
      → History moved_from a r q
      → (a ≡ r ++ contents q) × IsValid q
  history_fifo moved_from a r q started = (sym contents-empty, empty-IsValid)
  history_fifo moved_from a r q (submitted t a₀ r₀ q₀ q' h e) =
      let (order, v) = history_fifo moved_from a₀ r₀ q₀ h in
      let (_, _, pushed, v', _) = subst (Submits t q₀) e (submit_outcome t q₀ v) in
      (
        ap (λ x. x ++ t ∷ []) order
            ∙ append_assoc r₀ (contents q₀) (t ∷ [])
            ∙ ap (◌++◌ r₀) (sym pushed),
        v',
      )
  history_fifo moved_from a r q (refused t a₀ r₀ q₀ q' h e) =
      let (order, v) = history_fifo moved_from a₀ r₀ q₀ h in
      let (_, same) = subst (Submits t q₀) e (submit_outcome t q₀ v) in
      (order ∙ ap (λ x. r₀ ++ contents x) (sym same), subst IsValid (sym same) v)
  history_fifo moved_from a r q (removed t a₀ r₀ q₀ q' h some_left e) =
      let (order, v) = history_fifo moved_from a₀ r₀ q₀ h in
      elim (subst (Removes q₀) e (remove_outcome moved_from q₀ v)) [
        | inl (popped, v', _) ↦
            (order ∙ ap (◌++◌ r₀) popped ∙ sym (append_assoc r₀ (t ∷ []) (contents q')), v')
        | inr (_, nothing, _, _) ↦ absurd (omega (arith, length-contents q₀, ap length nothing))
      ]
  history_fifo moved_from a r q (drained t a₀ r₀ q₀ q' h none_left e) =
      let (order, v) = history_fifo moved_from a₀ r₀ q₀ h in
      elim (subst (Removes q₀) e (remove_outcome moved_from q₀ v)) [
        | inl (popped, v', _) ↦ absurd (omega (arith, length-contents q₀, ap length popped))
        | inr (_, _, _, same) ↦
            (order ∙ ap (λ x. r₀ ++ contents x) (sym same), subst IsValid (sym same) v)
      ]
  history_fifo moved_from a r q (stopped a₀ r₀ q₀ h) =
      let (order, v) = history_fifo moved_from a₀ r₀ q₀ h in
      let (same, v') = stop_keeps q₀ v in (order ∙ ap (◌++◌ r₀) (sym same), v')
