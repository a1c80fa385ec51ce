-- ===== src/Network/Server.antt =====
-- The event loop and the worker threads together (src/network/EventLoop.cpp): a step is an
-- `epoll_wait`, one of the events that it returned, the checks after them, a call of `stop`, or a task
-- that a worker takes out of the pool, in any order that the code allows. A task is one step, with its
-- end outside the lock of its connection and the accepting after a removal; so two threads never accept
-- at the same time here (Network.EventLoop.Race has that). Tasks may overtake each other. The steps end
-- with the loop, before its cleanup.
pub mod Table
pub mod Attended
pub mod Tasks
pub mod Reach
pub mod Cap
use c_http_1_1_server.Base.{
  ℕ, ◌≡◌, ◌⊎◌, Bool, true, false, ◌&&◌, ◌||◌, ◌==◌, List, [], ◌∷◌, ◌++◌, Option, none, some,
  if◌then◌else◌, Bytes,
}
use c_http_1_1_server.Base.FdMap.{find_fd, put_fd}
use c_http_1_1_server.Http.Router.{HttpRouter}
use c_http_1_1_server.Middleware.RateLimiter
use c_http_1_1_server.Middleware.RateLimiter.{RateLimiter}
use c_http_1_1_server.Network.Connection.{Connection, Sent}
use c_http_1_1_server.Network.EventLoop.{
  EventLoop, Task, Interest, is_running, Accept, drop_connection, remove_connection,
}
use c_http_1_1_server.Network.EventLoop.Table.{AllFresh}
use c_http_1_1_server.Network.EventLoop.Rounds.{
  Event, wakeup, listening, activity, stop, modify_epoll, handle_client_read, handle_event,
  timed_out, check_idle_timeouts, close_server, check_drained, is_stopped,
}
use c_http_1_1_server.Network.ReadTask.{Action, remove, watch, Received}
use c_http_1_1_server.Network.ReadTask
use c_http_1_1_server.Network.WriteTask

-- The loop, and the events of the last `epoll_wait` that are not handled yet.
pub record Server : Type 0 where
  pub loop : EventLoop
  pub events : List Event

abbrev pub disarmed : Interest
disarmed = record { epoll_in = false; epoll_out = false }

-- A client is registered one-shot: its descriptor is disarmed once an event is returned for it.
unfoldable pub disarm : List Event → EventLoop → EventLoop
unfolding modify_epoll
disarm [] l = l
disarm (wakeup ∷ es) l = disarm es l
disarm (listening waiting ∷ es) l = disarm es l
disarm (activity fd hup_or_err epoll_in epoll_out waiting ∷ es) l =
    disarm es (modify_epoll fd disarmed l)

-- An event of a client says at least one thing.
abbrev pub AllFlagged : List Event → Type 0
AllFlagged [] = Unit
AllFlagged (wakeup ∷ es) = AllFlagged es
AllFlagged (listening waiting ∷ es) = AllFlagged es
AllFlagged (activity fd hup_or_err epoll_in epoll_out waiting ∷ es) =
    ((hup_or_err || epoll_in || epoll_out) ≡ true) × AllFlagged es

abbrev pub put_found : ℕ → Connection → EventLoop → Option Connection → EventLoop
put_found fd c l none = l
put_found fd c l (some old) = record l { connections = put_fd fd c l.connections }

-- The connection that a task has worked on, in the table, if the table still has it: the task shares it
-- with the table.
unfoldable pub put_back : ℕ → Connection → EventLoop → EventLoop
put_back fd c l = put_found fd c l (find_fd fd l.connections)

unfoldable pub resubmit : Bool → ℕ → EventLoop → EventLoop
resubmit again fd l =
    if again && is_running l.state
    then record l { submitted = l.submitted ++ Task.read_again fd ∷ [] }
    else l

-- The end of a task.
unfoldable pub perform : ℕ → List Accept → ℕ → Action → EventLoop → EventLoop
unfolding resubmit modify_epoll remove_connection
perform now waiting fd remove l = remove_connection now waiting fd l
perform now waiting fd (watch flags again) l = resubmit again fd (modify_epoll fd flags l)

abbrev pub after_task :
    ℕ → List Accept → ℕ → Action × Connection → List Task → EventLoop → EventLoop
after_task now waiting fd (action, c) submitted l =
    perform now waiting fd action (put_back fd c (record l { submitted = submitted }))

-- `accept` returns no descriptor of the table, in the calls that follow a removal.
abbrev pub RemovalFresh : ℕ → List Accept → ℕ → EventLoop → Type 0
RemovalFresh now waiting fd l =
    (c : Connection)
    → find_fd fd l.connections ≡ some c
    → AllFresh now waiting (drop_connection fd c l)

abbrev pub EventFresh : ℕ → Event → EventLoop → Type 0
EventFresh now wakeup l = Unit
EventFresh now (listening waiting) l = AllFresh now waiting l
EventFresh now (activity fd hup_or_err epoll_in epoll_out waiting) l = RemovalFresh now waiting fd l

abbrev pub RemovalsFresh : ℕ → (ℕ → List Accept) → List ℕ → EventLoop → Type 0
RemovalsFresh now waiting [] l = Unit
RemovalsFresh now waiting (fd ∷ fds) l =
    RemovalFresh now (waiting fd) fd l
    × RemovalsFresh now waiting fds (remove_connection now (waiting fd) fd l)

abbrev pub CheckFresh : ℕ → (ℕ → List Accept) → EventLoop → Type 0
CheckFresh now waiting l =
    RemovalsFresh now waiting (timed_out now l.connections) (record l { last_timeout_check = now })

abbrev pub TaskFresh : ℕ → List Accept → ℕ → Action × Connection → List Task → EventLoop → Type 0
TaskFresh now waiting fd (action, c) submitted l =
    RemovalFresh now waiting fd (put_back fd c (record l { submitted = submitted }))

-- A task holds the connection that the table has for its descriptor, or one that is removed. It keeps
-- the descriptor open, so that no other connection gets it.
abbrev pub Holds : ℕ → Connection → EventLoop → Type 0
Holds fd c l = (find_fd fd l.connections ≡ some c) ⊎ (find_fd fd l.connections ≡ none)

-- The loop with the rate limiter as a read task leaves it.
abbrev pub served :
    (Bytes → ℕ)
    → (List (Bytes × Bytes) → List (Bytes × Bytes))
    → HttpRouter
    → ℕ
    → ℕ
    → List Received
    → Connection
    → EventLoop
    → EventLoop
served hash walk router now found results c l = record l {
  rate_limiter =
      ReadTask.allowing_after (RateLimiter.allow hash found now) walk router now results c
        l.rate_limiter;
}

pub data Step (hash : Bytes → ℕ) (walk : List (Bytes × Bytes) → List (Bytes × Bytes))
    (router : HttpRouter) : Server → Server → Type 0 where
  polled :
      (es : List Event) (l : EventLoop)
      → is_stopped l.state ≡ false
      → AllFlagged es
      → Step hash walk router
          (record { loop = l; events = [] })
          (record { loop = disarm es (close_server l); events = es })
  handled :
      (now : ℕ) (e : Event) (es : List Event) (l : EventLoop)
      → EventFresh now e l
      → Step hash walk router
          (record { loop = l; events = e ∷ es })
          (record { loop = handle_event now e l; events = es })
  checked :
      (now : ℕ) (waiting : ℕ → List Accept) (l : EventLoop)
      → CheckFresh now waiting (check_drained now l)
      → Step hash walk router
          (record { loop = l; events = [] })
          (record { loop = check_idle_timeouts now waiting (check_drained now l); events = [] })
  stop_called :
      (now : ℕ) (l : EventLoop) (es : List Event)
      → Step hash walk router
          (record { loop = l; events = es })
          (record { loop = stop now l; events = es })
  worker_read :
      (now : ℕ) (waiting : List Accept) (before after : List Task) (fd : ℕ) (c : Connection)
      (found : ℕ) (results : List Received) (sends : List Sent) (a : Action × Connection)
      (l : EventLoop) (es : List Event)
      → l.submitted ≡ before ++ Task.client_read fd ∷ after
      → Holds fd c l
      → (is_running l.state ≡ true) ⊎ (results ≡ [])
      → ReadTask.client_read
          (RateLimiter.allow hash found now)
          walk
          router
          now
          results
          sends
          c
          l.rate_limiter
        ≡ some a
      → TaskFresh now waiting fd a (before ++ after) (served hash walk router now found results c l)
      → Step hash walk router
          (record { loop = l; events = es })
          (record {
            loop =
                after_task now waiting fd a
                  (before ++ after)
                  (served hash walk router now found results c l);
            events = es;
          })
  worker_write :
      (now : ℕ) (waiting : List Accept) (before after : List Task) (fd : ℕ) (c : Connection)
      (sends : List Sent) (l : EventLoop) (es : List Event)
      → l.submitted ≡ before ++ Task.client_write fd ∷ after
      → Holds fd c l
      → TaskFresh now waiting fd
          (WriteTask.client_write (is_running l.state) sends c)
          (before ++ after)
          l
      → Step hash walk router
          (record { loop = l; events = es })
          (record {
            loop =
                after_task now waiting fd
                  (WriteTask.client_write (is_running l.state) sends c)
                  (before ++ after)
                  l;
            events = es;
          })
  worker_again :
      (before after : List Task) (fd : ℕ) (l : EventLoop) (es : List Event)
      → l.submitted ≡ before ++ Task.read_again fd ∷ after
      → Step hash walk router
          (record { loop = l; events = es })
          (record {
            loop = handle_client_read fd (record l { submitted = before ++ after });
            events = es;
          })
