-- ===== src/Network/EventLoop/Rounds.antt =====
-- The rounds of `EventLoop::run`, and what it calls between them. `epoll_wait`, the clock and the
-- connections that wait for each call of `accept` are arguments.
pub mod Shutdown
pub mod Drain
pub mod State
pub mod Signal
use c_http_1_1_server.Base.{
  ℕ, zero, suc, ◌+◌, ◌-◌, ◌/◌, Bool, true, false, not, ◌&&◌, ◌||◌, List, [], ◌∷◌, ◌++◌, Option,
  none, some, if◌then◌else◌, ltb, leb, length,
}
use c_http_1_1_server.Base.FdMap.{find_fd, put_fd, erase_fd}
use c_http_1_1_server.Middleware.PerIpConnectionLimiter.{release}
use c_http_1_1_server.Middleware.RateLimiter.{sweep_stale, default_max_idle}
use c_http_1_1_server.Network.Connection
use c_http_1_1_server.Network.Connection.{Connection, seconds_since_last_activity}
use c_http_1_1_server.Network.EventLoop.{
  EventLoop, LoopState, running, stopping, stopped, is_running, Interest, Task, client_read,
  client_write, Accept, handle_accept, one_less, remove_connection,
}

abbrev pub idle_timeout_seconds : ℕ
idle_timeout_seconds = 30

abbrev pub check_interval_seconds : ℕ
check_interval_seconds = 10

-- In milliseconds.
abbrev pub shutdown_timeout : ℕ
shutdown_timeout = 5000

-- The state becomes `stopping` only from `running`.
unfoldable pub stop : ℕ → EventLoop → EventLoop
stop now l = elim l.state [
  | running ↦ record l { state = stopping; shutdown_start = now }
  | stopping ↦ l
  | stopped ↦ l
]

-- `EPOLL_CTL_MOD` changes a registered descriptor only.
unfoldable pub modify_epoll : ℕ → Interest → EventLoop → EventLoop
modify_epoll client_fd events l = elim (find_fd client_fd l.interest) [
  | none ↦ l
  | some old ↦ record l { interest = put_fd client_fd events l.interest }
]

-- The task is made only for a connection of the table.
abbrev pub submit_found : Task → EventLoop → Option Connection → EventLoop
submit_found task l none = l
submit_found task l (some c) = record l { submitted = l.submitted ++ task ∷ [] }

unfoldable pub handle_client_read : ℕ → EventLoop → EventLoop
handle_client_read client_fd l =
    if is_running l.state
    then submit_found (client_read client_fd) l (find_fd client_fd l.connections)
    else l

unfoldable pub handle_client_write : ℕ → EventLoop → EventLoop
handle_client_write client_fd l =
    submit_found (client_write client_fd) l (find_fd client_fd l.connections)

-- An event of `epoll_wait`: of the wakeup descriptor, of the listening socket, or of a client, with
-- its flags: an error or hang-up, readable, writable.
pub data Event : Type 0 where
  wakeup : Event
  listening : List Accept → Event
  activity : ℕ → Bool → Bool → Bool → List Accept → Event

unfoldable pub handle_event : ℕ → Event → EventLoop → EventLoop
unfolding handle_accept remove_connection handle_client_read handle_client_write
handle_event now wakeup l = l
handle_event now (listening waiting) l =
    if is_running l.state then handle_accept now waiting l else l
handle_event now (activity client_fd hup_or_err epoll_in epoll_out waiting) l =
    let l' = if epoll_in && is_running l.state then handle_client_read client_fd l else l in
    if hup_or_err
    then remove_connection now waiting client_fd l
    else (if epoll_out then handle_client_write client_fd l' else l')

unfoldable pub handle_events : ℕ → List Event → EventLoop → EventLoop
unfolding handle_event
handle_events now [] l = l
handle_events now (e ∷ es) l = handle_events now es (handle_event now e l)

unfoldable pub timed_out : ℕ → List (ℕ × Connection) → List ℕ
timed_out now [] = []
timed_out now ((fd, c) ∷ m) =
    if leb idle_timeout_seconds (seconds_since_last_activity now c)
    then fd ∷ timed_out now m
    else timed_out now m

-- Each removal with the connections that wait for the `accept` it resumes.
unfoldable pub remove_all : ℕ → (ℕ → List Accept) → List ℕ → EventLoop → EventLoop
unfolding remove_connection
remove_all now waiting [] l = l
remove_all now waiting (fd ∷ fds) l =
    remove_all now waiting fds (remove_connection now (waiting fd) fd l)

-- The sweep of the rate limiter, at the time of the check.
abbrev pub swept : ℕ → EventLoop → EventLoop
swept now l = record l { rate_limiter = sweep_stale default_max_idle now l.rate_limiter }

unfoldable pub check_idle_timeouts : ℕ → (ℕ → List Accept) → EventLoop → EventLoop
unfolding timed_out remove_all
check_idle_timeouts now waiting l =
    if ltb ((now - l.last_timeout_check) / 1000000000) check_interval_seconds
    then l
    else swept now (
        remove_all now waiting (timed_out now l.connections)
          (record l { last_timeout_check = now }))

unfoldable pub has_pending_writes : List (ℕ × Connection) → Bool
has_pending_writes [] = false
has_pending_writes ((fd, c) ∷ m) = Connection.has_pending_writes c || has_pending_writes m

unfoldable pub cleanup_each : List (ℕ × Connection) → EventLoop → EventLoop
cleanup_each [] l = l
cleanup_each ((fd, c) ∷ m) l = cleanup_each m (record l {
  ip_conn_limiter = release c.client_ip l.ip_conn_limiter;
  active_connections = one_less l.active_connections;
  interest = if l.epoll_open then erase_fd fd l.interest else l.interest;
  closed = l.closed ++ fd ∷ [];
})

-- The descriptors that the destructors close.
unfoldable pub descriptors : List (ℕ × Connection) → List ℕ
descriptors [] = []
descriptors ((fd, c) ∷ m) = c.fd ∷ descriptors m

-- After the explicit `close` of each client, `clear` destroys the connections.
unfoldable pub cleanup_all_connections : EventLoop → EventLoop
unfolding cleanup_each descriptors
cleanup_all_connections l =
    let l' = cleanup_each l.connections l in
    record l' {
      connections = [];
      closed = l'.closed ++ descriptors l.connections;
      epoll_open = false;
      interest = [];
    }

-- What `epoll_wait` returns.
pub data Polled : Type 0 where
  interrupted failed : Polled
  events : List Event → Polled

-- A round: the answer of `epoll_wait`, the time after it, and the connections that wait for each
-- removal of an idle one.
pub record Round : Type 0 where
  pub polled : Polled
  pub now : ℕ
  pub waiting : ℕ → List Accept

unfoldable pub close_server : EventLoop → EventLoop
close_server l = elim l.state [
  | running ↦ l
  | stopping ↦ record l { server_open = false }
  | stopped ↦ l
]

abbrev pub is_empty : List (ℕ × Connection) → Bool
is_empty [] = true
is_empty (c ∷ m) = false

-- A loop that is stopping is stopped once no connection is left, or after the time limit.
unfoldable pub check_drained : ℕ → EventLoop → EventLoop
check_drained now l = elim l.state [
  | running ↦ l
  | stopping ↦
      if is_empty l.connections || leb shutdown_timeout ((now - l.shutdown_start) / 1000000)
      then record l { state = stopped }
      else l
  | stopped ↦ l
]

-- What follows the loop.
unfoldable pub finish : EventLoop → EventLoop
unfolding cleanup_all_connections
finish l = record (cleanup_all_connections l) { wakeup_open = false }

pub data Next : Type 0 where
  again leave : EventLoop → Next

-- A round goes on without its checks after an interrupted wait, and leaves the loop after a failed
-- one.
unfoldable pub after_poll : Round → EventLoop → Polled → Next
unfolding handle_events check_drained check_idle_timeouts
after_poll r l interrupted = again l
after_poll r l failed = leave l
after_poll r l (events es) =
    again (check_idle_timeouts r.now r.waiting (check_drained r.now (handle_events r.now es l)))

unfoldable pub run_round : Round → EventLoop → Next
unfolding after_poll close_server
run_round r l = after_poll r (close_server l) r.polled

-- What happens to a loop: a round, or a call of `stop` between two rounds.
pub data Input : Type 0 where
  round : Round → Input
  stop_called : ℕ → Input

pub data Ran : Type 0 where
  waiting ended : EventLoop → Ran

abbrev pub is_stopped : LoopState → Bool
is_stopped running = false
is_stopped stopping = false
is_stopped stopped = true

abbrev pub continue : (EventLoop → Ran) → Next → Ran
continue go (again l) = go l
continue go (leave l) = ended (finish l)

-- The loop, until its inputs end.
unfoldable pub run_loop : List Input → EventLoop → Ran
unfolding run_round stop finish
run_loop [] l = if is_stopped l.state then ended (finish l) else waiting l
run_loop (stop_called now ∷ inputs) l =
    let rest = run_loop inputs (stop now l) in if is_stopped l.state then ended (finish l) else rest
run_loop (round r ∷ inputs) l =
    let rest = continue (run_loop inputs) (run_round r l) in
    if is_stopped l.state then ended (finish l) else rest

unfoldable pub run : ℕ → List Input → EventLoop → Ran
unfolding run_loop
run now inputs l = run_loop inputs (record l { state = running; last_timeout_check = now })
