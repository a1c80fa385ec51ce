-- ===== src/Network/EventLoop/Start.antt =====
-- The constructor and `start` of `EventLoop`, with what the kernel answers.
use c_http_1_1_server.Base.{Bool, true, false, not, if◌then◌else◌, []}
use c_http_1_1_server.Middleware.PerIpConnectionLimiter.{limiter}
use c_http_1_1_server.Middleware.RateLimiter
use c_http_1_1_server.Network.EventLoop.{EventLoop, stopped, max_per_ip_connections}

-- The loop after its constructor.
abbrev pub constructed : EventLoop
constructed = record {
  state = stopped;
  shutdown_start = 0;
  epoll_open = false;
  server_open = true;
  wakeup_open = false;
  ip_conn_limiter = limiter max_per_ip_connections;
  rate_limiter = RateLimiter.limiter 10 20;
  active_connections = 0;
  connections = [];
  last_timeout_check = 0;
  interest = [];
  submitted = [];
  closed = [];
}

-- Whether each call succeeds: `epoll_create1`, `eventfd`, and the two of `epoll_ctl`.
pub record Setup : Type 0 where
  pub epoll_created : Bool
  pub eventfd_created : Bool
  pub wakeup_added : Bool
  pub server_added : Bool

-- Nothing that was opened is closed again after a failure.
unfoldable pub start : Setup → EventLoop → Bool × EventLoop
start s l =
    let with_epoll = record l { epoll_open = true } in
    let with_wakeup = record with_epoll { wakeup_open = true } in
    if not s.epoll_created
    then (false, record l { epoll_open = false })
    else if not s.eventfd_created
    then (false, record with_epoll { wakeup_open = false })
    else if not s.wakeup_added
    then (false, with_wakeup)
    else if not s.server_added
    then (false, with_wakeup)
    else (true, with_wakeup)
