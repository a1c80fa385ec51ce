-- ===== src/Network/Server/Cap.antt =====
-- The limit for one address, at every moment of a run.
use c_http_1_1_server.Base.{
  ℕ, ◌≡◌, ◌≤◌, ◌-◌, refl, ◌∙◌, arith, Bool, true, false, ◌&&◌, List, [], ◌∷◌, ◌++◌, Option, none,
  some, Bytes, bytes_eq, subst, either_way, if◌then◌else◌,
}
use c_http_1_1_server.Base.FdMap.{find_fd, weigh}
use c_http_1_1_server.Base.StringMap.{lookup}
use c_http_1_1_server.Http.Router.{HttpRouter}
use c_http_1_1_server.Middleware.PerIpConnectionLimiter.{
  PerIpConnectionLimiter, held, try_acquire, release, release_entry, count_or_zero,
}
use c_http_1_1_server.Middleware.PerIpConnectionLimiter.Slots.{try_acquire-held, held-release}
use c_http_1_1_server.Network.Connection.{Connection}
use c_http_1_1_server.Network.EventLoop.{
  EventLoop, Accept, would_block, transient, fatal, client, is_running, may_accept, register_client,
  admit, accept_client, handle_accept, drop_connection, resume_accept, remove_found,
  remove_connection, started, max_per_ip_connections,
}
use c_http_1_1_server.Network.EventLoop.Table.{from}
use c_http_1_1_server.Network.EventLoop.Rounds.{
  Event, wakeup, listening, activity, stop, modify_epoll, handle_client_read, handle_client_write,
  handle_event, remove_all, timed_out, check_idle_timeouts, check_drained, close_server,
}
use c_http_1_1_server.Network.ReadTask.{Action, remove, watch}
use c_http_1_1_server.Network.WriteTask.{client_write}
use c_http_1_1_server.Network.Server.{
  Server, Step, disarm, put_back, put_found, perform, resubmit, served,
}
use c_http_1_1_server.Network.Server.Table.{
  Same, modify_epoll-Same, handle_client_read-Same, handle_client_write-Same, resubmit-Same,
  disarm-Same, close_server-Same, stop-Same, check_drained-Same,
}
use c_http_1_1_server.Network.Server.Reach.{Reachable, reach-IsValid}

-- No address holds more slots than the limit, which is 100.
abbrev pub IsCapped : PerIpConnectionLimiter → Type 0
IsCapped p =
    (p.max_per_ip ≡ max_per_ip_connections) × ((ip : Bytes) → held ip p ≤ max_per_ip_connections)

max_per_ip-try_acquire :
    (ip : Bytes) (p : PerIpConnectionLimiter) → (try_acquire ip p).1.max_per_ip ≡ p.max_per_ip
unfolding try_acquire
max_per_ip-try_acquire ip p = ground arith

max_per_ip-release_entry :
    (ip : Bytes) (p : PerIpConnectionLimiter) (o : Option ℕ)
    → (release_entry ip p o).max_per_ip ≡ p.max_per_ip
unfolding release_entry
max_per_ip-release_entry ip p none = refl
max_per_ip-release_entry ip p (some n) = ground arith

try_acquire-IsCapped :
    (ip : Bytes) (p : PerIpConnectionLimiter) → IsCapped p → IsCapped (try_acquire ip p).1
try_acquire-IsCapped ip p (limit, cap) = (
  max_per_ip-try_acquire ip p ∙ limit,
  λ who. ground (arith, try_acquire-held ip who p, limit, cap who, cap ip),
)

release-IsCapped : (ip : Bytes) (p : PerIpConnectionLimiter) → IsCapped p → IsCapped (release ip p)
unfolding release
release-IsCapped ip p (limit, cap) = (
  max_per_ip-release_entry ip p (lookup ip p.counts) ∙ limit,
  λ who. omega (arith, less who (held-release ip who p)),
)
  where
    less :
        (who : Bytes)
        → held who (release ip p) ≡ (if bytes_eq ip who then held ip p - 1 else held who p)
        → held who (release ip p) ≤ max_per_ip_connections
    less who e = ground (arith, e, cap who, cap ip)

abbrev pub LoopCapped : EventLoop → Type 0
LoopCapped l = IsCapped l.ip_conn_limiter

Same-LoopCapped : (l l' : EventLoop) → Same l l' → LoopCapped l → LoopCapped l'
Same-LoopCapped l l' (_, _, e) k = subst IsCapped e k

accept_client-LoopCapped :
    (now : ℕ) (registered : Bool) (fd : ℕ) (ip : Bytes) (l : EventLoop)
    → LoopCapped l
    → LoopCapped (accept_client now registered fd ip l)
unfolding accept_client admit register_client
accept_client-LoopCapped now registered fd ip l k =
    admitted registered (try_acquire ip l.ip_conn_limiter)
      (try_acquire-IsCapped ip l.ip_conn_limiter k)
  where
    admitted :
        (registered : Bool) (a : Bool × PerIpConnectionLimiter)
        → IsCapped a.1
        → LoopCapped (admit now registered fd ip l a)
    admitted registered (false, after) c = c
    admitted true (true, after) c = c
    admitted false (true, after) c = release-IsCapped ip after c

handle_accept-LoopCapped :
    (now : ℕ) (waiting : List Accept) (l : EventLoop)
    → LoopCapped l
    → LoopCapped (handle_accept now waiting l)
unfolding handle_accept
handle_accept-LoopCapped now [] l k = k
handle_accept-LoopCapped now (would_block ∷ waiting) l k = k
handle_accept-LoopCapped now (fatal ∷ waiting) l k = k
handle_accept-LoopCapped now (transient ∷ waiting) l k =
    either_way LoopCapped (may_accept l) (handle_accept-LoopCapped now waiting l k) k
handle_accept-LoopCapped now (client fd ip registered ∷ waiting) l k =
    either_way LoopCapped (may_accept l)
      (handle_accept-LoopCapped now waiting (accept_client now registered fd ip l)
        (accept_client-LoopCapped now registered fd ip l k))
      k

remove_connection-LoopCapped :
    (now : ℕ) (waiting : List Accept) (fd : ℕ) (l : EventLoop)
    → LoopCapped l
    → LoopCapped (remove_connection now waiting fd l)
unfolding remove_connection remove_found resume_accept drop_connection
remove_connection-LoopCapped now waiting fd l k = found (find_fd fd l.connections)
  where
    found : (o : Option Connection) → LoopCapped (remove_found now waiting fd l o)
    found none = k
    found (some c) =
        let dropped = release-IsCapped c.client_ip l.ip_conn_limiter k in
        either_way LoopCapped _
          (handle_accept-LoopCapped now waiting (drop_connection fd c l) dropped) dropped

remove_all-LoopCapped :
    (now : ℕ) (waiting : ℕ → List Accept) (fds : List ℕ) (l : EventLoop)
    → LoopCapped l
    → LoopCapped (remove_all now waiting fds l)
unfolding remove_all
remove_all-LoopCapped now waiting [] l k = k
remove_all-LoopCapped now waiting (fd ∷ fds) l k =
    remove_all-LoopCapped now waiting fds _ (remove_connection-LoopCapped now (waiting fd) fd l k)

idle-LoopCapped :
    (now : ℕ) (waiting : ℕ → List Accept) (l : EventLoop)
    → LoopCapped l
    → LoopCapped (check_idle_timeouts now waiting l)
unfolding check_idle_timeouts
idle-LoopCapped now waiting l k = either_way LoopCapped _ k (
    remove_all-LoopCapped now waiting (timed_out now l.connections)
      (record l { last_timeout_check = now }) k)

handle_event-LoopCapped :
    (now : ℕ) (e : Event) (l : EventLoop) → LoopCapped l → LoopCapped (handle_event now e l)
unfolding handle_event
handle_event-LoopCapped now wakeup l k = k
handle_event-LoopCapped now (listening waiting) l k =
    either_way LoopCapped _ (handle_accept-LoopCapped now waiting l k) k
handle_event-LoopCapped now (activity fd h i o waiting) l k =
    let l' = if i && is_running l.state then handle_client_read fd l else l in
    let read : LoopCapped l' =
      either_way LoopCapped (i && is_running l.state)
        (Same-LoopCapped l (handle_client_read fd l) (handle_client_read-Same fd l) k) k in
    let written =
      Same-LoopCapped l' (handle_client_write fd l') (handle_client_write-Same fd l') read in
    either_way LoopCapped h (remove_connection-LoopCapped now waiting fd l k)
      (either_way LoopCapped o written read)

after_task-LoopCapped :
    (now : ℕ) (waiting : List Accept) (fd : ℕ) (a : Action × Connection) (l : EventLoop)
    → LoopCapped l
    → LoopCapped (perform now waiting fd a.0 (put_back fd a.1 l))
unfolding perform put_back
after_task-LoopCapped now waiting fd (action, c) l k =
    performed action (put (find_fd fd l.connections))
  where
    put : (o : Option Connection) → LoopCapped (put_found fd c l o)
    put none = k
    put (some old) = k

    performed :
        (action : Action)
        → LoopCapped (put_back fd c l)
        → LoopCapped (perform now waiting fd action (put_back fd c l))
    performed remove p = remove_connection-LoopCapped now waiting fd _ p
    performed (watch i again) p =
        let armed = modify_epoll fd i (put_back fd c l) in
        Same-LoopCapped armed (resubmit again fd armed) (resubmit-Same again fd armed)
          (Same-LoopCapped (put_back fd c l) armed (modify_epoll-Same fd i (put_back fd c l)) p)

none_held : (ip : Bytes) → held ip started.ip_conn_limiter ≤ max_per_ip_connections
unfolding held lookup count_or_zero
none_held ip = omega arith

module _ (hash : Bytes → ℕ) (walk : List (Bytes × Bytes) → List (Bytes × Bytes))
    (router : HttpRouter) where
  step-LoopCapped :
      {s s' : Server} → Step hash walk router s s' → LoopCapped s.loop → LoopCapped s'.loop
  step-LoopCapped (Step.polled es l goes_on f) k =
      Same-LoopCapped (close_server l) (disarm es (close_server l))
        (disarm-Same es (close_server l))
        (Same-LoopCapped l (close_server l) (close_server-Same l) k)
  step-LoopCapped (Step.handled now e es l f) k = handle_event-LoopCapped now e l k
  step-LoopCapped (Step.checked now waiting l f) k =
      idle-LoopCapped now waiting (check_drained now l)
        (Same-LoopCapped l (check_drained now l) (check_drained-Same now l) k)
  step-LoopCapped (Step.stop_called now l es) k = Same-LoopCapped l (stop now l) (stop-Same now l) k
  step-LoopCapped
        (Step.worker_read now waiting before after fd c found results sends a l es e h r d f) k =
      let l' = served hash walk router now found results c l in
      after_task-LoopCapped now waiting fd a (record l' { submitted = before ++ after }) k
  step-LoopCapped (Step.worker_write now waiting before after fd c sends l es e h f) k =
      after_task-LoopCapped now waiting fd (client_write (is_running l.state) sends c)
        (record l { submitted = before ++ after }) k
  step-LoopCapped (Step.worker_again before after fd l es e) k =
      let l' = record l { submitted = before ++ after } in
      Same-LoopCapped l' (handle_client_read fd l') (handle_client_read-Same fd l') k

  reach-LoopCapped : {s : Server} → Reachable hash walk router s → LoopCapped s.loop
  reach-LoopCapped (Reachable.beginning now) = (refl, λ ip. none_held ip)
  reach-LoopCapped (Reachable.later r st) = step-LoopCapped st (reach-LoopCapped r)

  -- At every moment of a run before its cleanup, each task being one step, no address has more than 100
  -- connections in the table. This needs that `accept` returns no descriptor of the table, and that a
  -- task holds the connection of the table or one that is removed.
  pub reach_capped :
      {s : Server}
      → Reachable hash walk router s
      → (ip : Bytes) → weigh (from ip) s.loop.connections ≤ max_per_ip_connections
  reach_capped r ip =
      omega (arith, (reach-IsValid hash walk router r).slots ip, (reach-LoopCapped r).1 ip)
