-- ===== src/Tests/Queueing.antt =====
-- The task queue and the worker on small histories.
use c_http_1_1_server.Base.{ℕ, ◌≡◌, refl, arith, [], ◌∷◌, ◌++◌, Option, none, some, set}
use c_http_1_1_server.Concurrency.TaskQueue
use c_http_1_1_server.Concurrency.TaskQueue.{TaskQueue, Outcome, returned, submit, remove, stop}
use c_http_1_1_server.Concurrency.TaskQueue.Window.{contents}
use c_http_1_1_server.Concurrency.TaskQueue.Fifo.{
  IsValid, History, started, submitted, removed, history_fifo,
}
use c_http_1_1_server.Concurrency.ThreadPool.Joins.{
  over, ThreadPool, spawned, turn, turns, IsEnding, pool_ends,
}

abbrev emptied : Option ℕ → Option ℕ
emptied t = none

abbrev one : TaskQueue ℕ
one = record TaskQueue.empty {
  tasks = set TaskQueue.empty.tasks 0 (some 7);
  tail = 1;
  buffer_len = 1;
}

abbrev two : TaskQueue ℕ
two = record one { tasks = set one.tasks 1 (some 8); tail = 2; buffer_len = 2 }

abbrev taken : TaskQueue ℕ
taken = record two { tasks = set two.tasks 0 none; head = 1; buffer_len = 1 }

taken_history : History emptied (some 7 ∷ some 8 ∷ []) (some 7 ∷ []) taken
unfolding submit remove
taken_history =
    removed (some 7) (some 7 ∷ some 8 ∷ []) [] two taken
      (submitted (some 8) (some 7 ∷ []) [] one two
        (submitted (some 7) [] [] TaskQueue.empty one started refl) refl)
      (omega arith) refl

history_fifo_example : (some 7 ∷ some 8 ∷ [] ≡ (some 7 ∷ []) ++ contents taken) × IsValid taken
history_fifo_example = history_fifo emptied (some 7 ∷ some 8 ∷ []) (some 7 ∷ []) taken taken_history

taken-IsValid : IsValid taken
taken-IsValid =
    let (_, v) = history_fifo emptied (some 7 ∷ some 8 ∷ []) (some 7 ∷ []) taken taken_history in v

stopped-IsValid : IsValid (stop taken)
unfolding stop
stopped-IsValid = record {
  size = taken-IsValid.size;
  head_lt = taken-IsValid.head_lt;
  bounded = taken-IsValid.bounded;
  tail_eq = taken-IsValid.tail_eq;
}

abbrev two_workers : ThreadPool ℕ
two_workers = record { task_queue = stop taken; workers = spawned 2; ran = [] }

abbrev left : ThreadPool ℕ
left = record {
  task_queue = record (stop taken) { tasks = set taken.tasks 1 none; head = 2; buffer_len = 0 };
  workers = over ∷ over ∷ [];
  ran = 8 ∷ [];
}

pool_ends_example : IsEnding emptied 4 two_workers left
unfolding turns turn remove stop
pool_ends_example =
    pool_ends emptied (1 ∷ 1 ∷ 0 ∷ 1 ∷ []) two_workers left (stopped-IsValid, refl) refl
