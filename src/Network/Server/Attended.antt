-- ===== src/Network/Server/Attended.antt =====
-- No connection is left alone while the loop runs: for each one of the table its descriptor is armed, or
-- an event of it is to be handled, or a task for it is in the pool.
pub mod Turns
pub mod Steps
use c_http_1_1_server.Base.{
  ℕ, ◌≡◌, refl, sym, ap, ◌∙◌, arith, Bool, true, false, ◌&&◌, ◌||◌, ◌==◌, ==_iff, List, [], ◌∷◌,
  ◌++◌, Option, none, some, if◌then◌else◌, Bytes, subst, inl, inr, Option-cases, either_way,
}
use c_http_1_1_server.Base.FdMap.{
  find_fd, put_fd, erase_fd, find-put_fd, find_after_erase, erase-put_new,
}
use c_http_1_1_server.Network.Connection.{Connection, connect, set_client_ip}
use c_http_1_1_server.Network.EventLoop.{
  EventLoop, Task, Interest, Accept, would_block, transient, fatal, client, is_running, may_accept,
  register_client, admit, accept_client, handle_accept, drop_connection, resume_accept,
  remove_found, remove_connection,
}
use c_http_1_1_server.Middleware.PerIpConnectionLimiter.{PerIpConnectionLimiter, try_acquire}
use c_http_1_1_server.Network.EventLoop.Table.{AllFresh}
use c_http_1_1_server.Network.EventLoop.Rounds.{
  Event, wakeup, listening, activity, modify_epoll, handle_client_read, handle_client_write,
  handle_event, submit_found,
}
use c_http_1_1_server.Network.Server.{disarmed, disarm, RemovalFresh}

abbrev pub fd_of : Task → ℕ
fd_of (Task.client_read fd) = fd
fd_of (Task.client_write fd) = fd
fd_of (Task.read_again fd) = fd

-- A task for the descriptor waits.
abbrev pub has_task : ℕ → List Task → Bool
has_task fd [] = false
has_task fd (t ∷ ts) = fd_of t == fd || has_task fd ts

-- An event of the descriptor is to be handled.
abbrev pub has_event : ℕ → List Event → Bool
has_event fd [] = false
has_event fd (wakeup ∷ es) = has_event fd es
has_event fd (listening waiting ∷ es) = has_event fd es
has_event fd (activity k h i o waiting ∷ es) = k == fd || has_event fd es

-- The descriptor is registered, and armed unless the test holds.
abbrev pub is_cared_for : Bool → Option Interest → Bool
is_cared_for awaited none = false
is_cared_for awaited (some i) = i.epoll_in || i.epoll_out || awaited

-- While the loop runs, each connection is cared for; `also` holds for the descriptors that something else waits for.
abbrev pub AllAttended : (ℕ → Bool) → EventLoop → Type 0
AllAttended also l =
    is_running l.state ≡ true
    → (j : ℕ) (c : Connection) → find_fd j l.connections ≡ some c
    → is_cared_for (has_task j l.submitted || also j) (find_fd j l.interest) ≡ true

-- All of `also`, and one more.
abbrev pub excused : ℕ → (ℕ → Bool) → ℕ → Bool
excused fd also j = fd == j || also j

register-Attended :
    (also : ℕ → Bool) (registered : Bool) (now fd : ℕ) (ip : Bytes) (l : EventLoop)
    (after : PerIpConnectionLimiter)
    → AllAttended also l
    → find_fd fd l.connections ≡ none
    → AllAttended also (
        register_client registered fd ip (record l {
          ip_conn_limiter = after;
          connections = put_fd fd (set_client_ip ip (connect now fd)) l.connections;
        }))
unfolding register_client
register-Attended also true now fd ip l after a new r j c h =
    let made = set_client_ip ip (connect now fd) in
    let armed : Interest = record { epoll_in = true; epoll_out = false } in
    ground (arith, find-put_fd fd j made l.connections, find-put_fd fd j armed l.interest, a r j c)
register-Attended also false now fd ip l after a new r j c h = a r j c (
    ap (find_fd j) (sym (erase-put_new fd (set_client_ip ip (connect now fd)) l.connections new))
    ∙ h)

admit-Attended :
    (also : ℕ → Bool) (now : ℕ) (registered : Bool) (fd : ℕ) (ip : Bytes) (l : EventLoop)
    (r : Bool × PerIpConnectionLimiter)
    → AllAttended also l
    → find_fd fd l.connections ≡ none
    → AllAttended also (admit now registered fd ip l r)
unfolding admit
admit-Attended also now registered fd ip l (true, after) a new =
    register-Attended also registered now fd ip l after a new
admit-Attended also now registered fd ip l (false, after) a new = a

pub handle_accept-Attended :
    (also : ℕ → Bool) (now : ℕ) (waiting : List Accept) (l : EventLoop)
    → AllAttended also l
    → AllFresh now waiting l
    → AllAttended also (handle_accept now waiting l)
unfolding handle_accept AllFresh accept_client
handle_accept-Attended also now [] l a f = a
handle_accept-Attended also now (would_block ∷ waiting) l a f = a
handle_accept-Attended also now (fatal ∷ waiting) l a f = a
handle_accept-Attended also now (transient ∷ waiting) l a f =
    either_way (AllAttended also) (may_accept l) (handle_accept-Attended also now waiting l a f) a
handle_accept-Attended also now (client fd ip registered ∷ waiting) l a f =
    either_way (AllAttended also) (may_accept l)
      (handle_accept-Attended also now waiting (accept_client now registered fd ip l)
        (admit-Attended also now registered fd ip l (try_acquire ip l.ip_conn_limiter) a f.0) f.1)
      a

drop-Attended :
    (also : ℕ → Bool) (fd : ℕ) (c : Connection) (l : EventLoop)
    → AllAttended (excused fd also) l
    → AllAttended also (drop_connection fd c l)
unfolding drop_connection
drop-Attended also fd c l a r j d h =
    ground (arith, find_after_erase fd j l.connections, find_after_erase fd j l.interest, a r j d)

-- A removal ends the excuse for the descriptor.
pub remove_connection-Attended :
    (also : ℕ → Bool) (now : ℕ) (waiting : List Accept) (fd : ℕ) (l : EventLoop)
    → AllAttended (excused fd also) l
    → RemovalFresh now waiting fd l
    → AllAttended also (remove_connection now waiting fd l)
unfolding remove_connection remove_found resume_accept
remove_connection-Attended also now waiting fd l a f = found (find_fd fd l.connections) refl
  where
    found :
        (o : Option Connection)
        → find_fd fd l.connections ≡ o
        → AllAttended also (remove_found now waiting fd l o)
    found none e = λ r j c h.
        ground
          (arith, a r j c h, ==_iff fd j, λ (same : fd ≡ j). ap (λ k. find_fd k l.connections) same)
    found (some c) e =
        let dropped = drop_connection fd c l in
        let kept = drop-Attended also fd c l a in
        either_way (AllAttended also) (is_running dropped.state && dropped.server_open)
          (handle_accept-Attended also now waiting dropped kept (f c e)) kept
