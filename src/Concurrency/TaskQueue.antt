-- ===== src/Concurrency/TaskQueue.antt =====
-- `TaskQueue` (include/concurrency/TaskQueue.h, src/concurrency/TaskQueue.cpp): a ring buffer behind
-- a lock. A `std::function<void()>` is `none` if it is empty. An operation runs with the lock held;
-- it is `blocked` if the predicate of its `wait` is false, and is then tried again after a wake-up.
-- `moved_from` is what a move leaves in the object it moves out of.
pub mod Window
pub mod Fifo
use c_http_1_1_server.Base.{
  ℕ, zero, suc, ◌+◌, ◌-◌, ◌%◌, Bool, true, false, ◌||◌, List, [], ◌∷◌, Option, none, some, length,
  get_elem?, set, if◌then◌else◌, ltb,
}

abbrev pub queue_capacity : ℕ
queue_capacity = 1024

pub record TaskQueue (A : Type 0) : Type 0 where
  pub tasks : List (Option A)
  pub head : ℕ
  pub tail : ℕ
  pub buffer_len : ℕ
  pub shutdown : Bool

pub data Outcome (A : Type 0) (R : Type 0) : Type 0 where
  blocked : Outcome A R
  returned : R → TaskQueue A → Outcome A R

module _ {A : Type 0} where
  abbrev empty_slots : ℕ → List (Option A)
  empty_slots zero = []
  empty_slots (suc n) = none ∷ empty_slots n

  abbrev pub empty : TaskQueue A
  empty = record {
    tasks = empty_slots queue_capacity;
    head = 0;
    tail = 0;
    buffer_len = 0;
    shutdown = false;
  }

  -- `tasks[i]`.
  abbrev pub slot : List (Option A) → ℕ → Option A
  slot [] i = none
  slot (t ∷ ts) zero = t
  slot (t ∷ ts) (suc i) = slot ts i

  unfoldable pub submit : Option A → TaskQueue A → Outcome A Bool
  submit task q =
      if ltb q.buffer_len queue_capacity || q.shutdown
      then (if q.shutdown
          then returned false q
          else returned true (record q {
            tasks = set q.tasks q.tail task;
            tail = (q.tail + 1) % queue_capacity;
            buffer_len = q.buffer_len + 1;
          }))
      else blocked

  unfoldable pub remove : (Option A → Option A) → TaskQueue A → Outcome A (Option A)
  remove moved_from q =
      if ltb 0 q.buffer_len || q.shutdown
      then (if ltb 0 q.buffer_len
          then returned (slot q.tasks q.head) (record q {
            tasks = set q.tasks q.head (moved_from (slot q.tasks q.head));
            head = (q.head + 1) % queue_capacity;
            buffer_len = q.buffer_len - 1;
          })
          else returned none q)
      else blocked

  unfoldable pub stop : TaskQueue A → TaskQueue A
  stop q = record q { shutdown = true }
