-- ===== src/Network/EventLoop.antt =====
-- `EventLoop` (include/network/EventLoop.h, src/network/EventLoop.cpp): its connection table, counts
-- and states. A handler is one step. What the kernel answers is an argument: the connections that
-- wait to be accepted, the events of a round, the time in nanoseconds. A task for the thread pool is
-- recorded in `submitted`, and each `close` of a client's descriptor in `closed`, in order. A client
-- is always registered edge-triggered and one-shot, so `Interest` has the other two flags. The pool is
-- taken to have room for every task; a connection that is removed is closed before the accepting that
-- follows, while the code destroys it behind that.
pub mod Table
pub mod Rounds
pub mod Start
pub mod Race
use c_http_1_1_server.Base.{
  ℕ, zero, suc, ◌+◌, ◌-◌, ◌/◌, ◌%◌, Bool, true, false, not, ◌&&◌, ◌||◌, List, [], ◌∷◌, ◌++◌, map,
  Option, none, some, if◌then◌else◌, ltb, leb, Bytes,
}
use c_http_1_1_server.Base.FdMap.{find_fd, put_fd, erase_fd}
use c_http_1_1_server.Http.Numbers.{word_mod}
use c_http_1_1_server.Middleware.PerIpConnectionLimiter.{
  PerIpConnectionLimiter, limiter, try_acquire, release,
}
use c_http_1_1_server.Middleware.RateLimiter
use c_http_1_1_server.Middleware.RateLimiter.{RateLimiter}
use c_http_1_1_server.Network.Connection
use c_http_1_1_server.Network.Connection.{
  Connection, connect, set_client_ip, seconds_since_last_activity,
}

pub data LoopState : Type 0 where
  running stopping stopped : LoopState

abbrev pub is_running : LoopState → Bool
is_running running = true
is_running stopping = false
is_running stopped = false

pub record Interest : Type 0 where
  pub epoll_in : Bool
  pub epoll_out : Bool

-- A read or a write task of `handle_client_read` and `handle_client_write`, or the call of
-- `handle_client_read` that a read task submits for what is left in the buffer.
pub data Task : Type 0 where
  client_read client_write read_again : ℕ → Task

abbrev pub max_total_connections : ℕ
max_total_connections = 10000

abbrev pub max_per_ip_connections : ℕ
max_per_ip_connections = 100

pub record EventLoop : Type 0 where
  pub state : LoopState
  pub shutdown_start : ℕ
  pub epoll_open : Bool
  pub server_open : Bool
  pub wakeup_open : Bool
  pub ip_conn_limiter : PerIpConnectionLimiter
  pub rate_limiter : RateLimiter
  pub active_connections : ℕ
  pub connections : List (ℕ × Connection)
  pub last_timeout_check : ℕ
  pub interest : List (ℕ × Interest)
  pub submitted : List Task
  pub closed : List ℕ

-- The loop after a `start` that succeeds.
abbrev pub started : EventLoop
started = record {
  state = stopped;
  shutdown_start = 0;
  epoll_open = true;
  server_open = true;
  wakeup_open = true;
  ip_conn_limiter = limiter max_per_ip_connections;
  rate_limiter = RateLimiter.limiter 10 20;
  active_connections = 0;
  connections = [];
  last_timeout_check = 0;
  interest = [];
  submitted = [];
  closed = [];
}

-- One call of `accept`: no connection waits (`EAGAIN`), an error that passes, a fatal one, or a
-- client, with its address and whether `epoll_ctl` then registers it.
pub data Accept : Type 0 where
  would_block transient fatal : Accept
  client : ℕ → Bytes → Bool → Accept

unfoldable pub register_client : Bool → ℕ → Bytes → EventLoop → EventLoop
register_client true client_fd ip l = record l {
  interest = put_fd client_fd (record { epoll_in = true; epoll_out = false }) l.interest;
  active_connections = (l.active_connections + 1) % word_mod;
}
-- The explicit `close`, and then that of the destructor.
register_client false client_fd ip l = record l {
  ip_conn_limiter = release ip l.ip_conn_limiter;
  connections = erase_fd client_fd l.connections;
  closed = l.closed ++ client_fd ∷ client_fd ∷ [];
}

-- The loop's body for a client, after the check of its address.
unfoldable pub admit : ℕ → Bool → ℕ → Bytes → EventLoop → Bool × PerIpConnectionLimiter → EventLoop
unfolding register_client connect set_client_ip
admit now registered client_fd ip l (false, after) = record l {
  ip_conn_limiter = after;
  closed = l.closed ++ client_fd ∷ [];
}
admit now registered client_fd ip l (true, after) =
    register_client registered client_fd ip (record l {
      ip_conn_limiter = after;
      connections = put_fd client_fd (set_client_ip ip (connect now client_fd)) l.connections;
    })

unfoldable pub accept_client : ℕ → Bool → ℕ → Bytes → EventLoop → EventLoop
unfolding admit
accept_client now registered client_fd ip l =
    admit now registered client_fd ip l (try_acquire ip l.ip_conn_limiter)

-- The loop may accept one more.
unfoldable pub may_accept : EventLoop → Bool
may_accept l = is_running l.state && not (leb max_total_connections l.active_connections)

unfoldable pub handle_accept : ℕ → List Accept → EventLoop → EventLoop
unfolding may_accept accept_client
handle_accept now [] l = l
handle_accept now (would_block ∷ waiting) l = l
handle_accept now (fatal ∷ waiting) l = l
handle_accept now (transient ∷ waiting) l =
    let rest = handle_accept now waiting l in if may_accept l then rest else l
handle_accept now (client client_fd ip registered ∷ waiting) l =
    let rest = handle_accept now waiting (accept_client now registered client_fd ip l) in
    if may_accept l then rest else l

-- `fetch_sub(1)` on a 64-bit count.
abbrev pub one_less : ℕ → ℕ
one_less n = (n + (word_mod - 1)) % word_mod

unfoldable pub drop_connection : ℕ → Connection → EventLoop → EventLoop
drop_connection client_fd c l = record l {
  connections = erase_fd client_fd l.connections;
  ip_conn_limiter = release c.client_ip l.ip_conn_limiter;
  active_connections = one_less l.active_connections;
  interest = if l.epoll_open then erase_fd client_fd l.interest else l.interest;
  closed = l.closed ++ c.fd ∷ [];
}

-- The accept queue is drained again, since a slot is free.
unfoldable pub resume_accept : ℕ → List Accept → EventLoop → EventLoop
unfolding handle_accept
resume_accept now waiting l =
    if is_running l.state && l.server_open then handle_accept now waiting l else l

unfoldable pub remove_found : ℕ → List Accept → ℕ → EventLoop → Option Connection → EventLoop
unfolding drop_connection resume_accept
remove_found now waiting client_fd l none = l
remove_found now waiting client_fd l (some c) =
    resume_accept now waiting (drop_connection client_fd c l)

unfoldable pub remove_connection : ℕ → List Accept → ℕ → EventLoop → EventLoop
unfolding remove_found
remove_connection now waiting client_fd l =
    remove_found now waiting client_fd l (find_fd client_fd l.connections)
