-- ===== src/Concurrency/ThreadPool.antt =====
-- `ThreadPool` (include/concurrency/ThreadPool.h, src/concurrency/ThreadPool.cpp): the loop of a
-- worker thread, on fuel, with the tasks that it has run. Its threads share one `TaskQueue`.
pub mod Drain
pub mod Joins
use c_http_1_1_server.Base.{ℕ, zero, suc, Bool, List, [], ◌∷◌, ◌++◌, Option, none, some}
use c_http_1_1_server.Concurrency.TaskQueue
use c_http_1_1_server.Concurrency.TaskQueue.{TaskQueue, Outcome, blocked, returned, remove}

abbrev pub worker_threads : ℕ
worker_threads = 64

pub data Worked (A : Type 0) : Type 0 where
  out_of_fuel : Worked A
  waiting : List A → TaskQueue A → Worked A
  finished : List A → TaskQueue A → Worked A

module _ {A : Type 0} (moved_from : Option A → Option A) where
  -- What the worker does with the outcome of `remove`; `again` is the next round.
  abbrev pub work :
      (List A → TaskQueue A → Worked A) → List A → TaskQueue A → Outcome A (Option A) → Worked A
  work again ran q blocked = waiting ran q
  work again ran q (returned none q') = finished ran q'
  work again ran q (returned (some task) q') = again (ran ++ task ∷ []) q'

  unfoldable pub worker : ℕ → List A → TaskQueue A → Worked A
  worker zero ran q = out_of_fuel
  worker (suc fuel) ran q = work (worker fuel) ran q (remove moved_from q)

module _ {A : Type 0} where
  unfoldable pub submit : Option A → TaskQueue A → Outcome A Bool
  submit task queue = TaskQueue.submit task queue

  -- The destructor, before it joins the workers.
  unfoldable pub shut_down : TaskQueue A → TaskQueue A
  shut_down queue = TaskQueue.stop queue
