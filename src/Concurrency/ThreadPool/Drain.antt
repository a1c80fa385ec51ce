-- ===== src/Concurrency/ThreadPool/Drain.antt =====
-- A worker ends after a shutdown, and runs what was waiting.
use c_http_1_1_server.Base.{
  ℕ, zero, suc, ◌<◌, ◌≡◌, inl, inr, sym, subst, ap, ◌∙◌, arith, true, List, [], ◌∷◌, ◌++◌,
  append_assoc, append-nil, length, Option, none, some,
}
use c_http_1_1_server.Concurrency.TaskQueue.{TaskQueue, Outcome, blocked, returned, remove}
use c_http_1_1_server.Concurrency.TaskQueue.Window.{contents}
use c_http_1_1_server.Concurrency.TaskQueue.Fifo.{IsValid, Removes, remove_outcome}
use c_http_1_1_server.Concurrency.ThreadPool.{Worked, finished, work, worker}

module _ {A : Type 0} where
  -- The tasks before the first empty function.
  unfoldable pub until_empty : List (Option A) → List A
  until_empty [] = []
  until_empty (none ∷ ts) = []
  until_empty (some t ∷ ts) = t ∷ until_empty ts

  Drains : List A → TaskQueue A → Worked A → Type 0
  Drains ran q w =
      (q' : TaskQueue A) × (w ≡ finished (ran ++ until_empty (contents q)) q') × IsValid q'

  Drains-step :
      (moved_from : Option A → Option A) (again : List A → TaskQueue A → Worked A) (ran : List A)
      (q : TaskQueue A) (o : Outcome A (Option A))
      → q.shutdown ≡ true
      → Removes q o
      → ((ran' : List A) (q' : TaskQueue A)
          → IsValid q'
          → q'.shutdown ≡ true
          → length (contents q') < length (contents q)
          → Drains ran' q' (again ran' q'))
      → IsValid q
      → Drains ran q (work moved_from again ran q o)
  unfolding until_empty Drains
  Drains-step moved_from again ran q blocked s (running, _) rest v = ground arith
  Drains-step moved_from again ran q (returned none q') s (inl (popped, v', _)) rest v =
      (q', rw popped (ap (λ x. finished x q') (sym (append-nil ran))), v')
  Drains-step moved_from again ran q (returned none q') s (inr (_, nothing, _, same)) rest v =
      (q', rw nothing (ap (λ x. finished x q') (sym (append-nil ran))), subst IsValid (sym same) v)
  Drains-step moved_from again ran q (returned (some t) q') s (inl (popped, v', s')) rest v =
      let (q'', runs, v'') =
        rest (ran ++ t ∷ []) q' v' (s' ∙ s) (omega (arith, ap length popped)) in
      (
        q'',
        runs
            ∙ ap (λ x. finished x q'')
                (append_assoc ran (t ∷ []) (until_empty (contents q'))
                  ∙ ap (λ x. ran ++ until_empty x) (sym popped)),
        v'',
      )
  Drains-step moved_from again ran q (returned (some t) q') s (inr (_, _, e, _)) rest v =
      ground arith

  -- Once the queue is shut down and its ring is right, a worker that is alone with it never waits: it runs the tasks that
  -- wait, oldest first, up to the first empty function, and ends. One more round than there are
  -- tasks is fuel enough.
  worker_drains :
      (moved_from : Option A → Option A) (n : ℕ) (ran : List A) (q : TaskQueue A)
      → IsValid q
      → q.shutdown ≡ true
      → length (contents q) < n
      → (q' : TaskQueue A) × (worker moved_from n ran q
          ≡ finished (ran ++ until_empty (contents q)) q')
        × IsValid q'
  unfolding worker Drains
  worker_drains moved_from zero ran q v s h = absurd (omega arith)
  worker_drains moved_from (suc n) ran q v s h =
      Drains-step moved_from (worker moved_from n) ran q (remove moved_from q) s
        (remove_outcome moved_from q v)
        (λ ran' q' v' s' l. worker_drains moved_from n ran' q' v' s' (omega arith)) v
