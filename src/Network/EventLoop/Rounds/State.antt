-- ===== src/Network/EventLoop/Rounds/State.antt =====
-- Which calls change the state of the loop: none that a round makes but `check_drained`.
use c_http_1_1_server.Base.{
  ℕ, ◌≡◌, refl, ◌∙◌, Bool, true, false, ◌&&◌, List, [], ◌∷◌, Option, none, some, Bytes, either_way,
  if◌then◌else◌, ltb, ◌-◌, ◌/◌,
}
use c_http_1_1_server.Base.FdMap.{find_fd}
use c_http_1_1_server.Middleware.PerIpConnectionLimiter.{PerIpConnectionLimiter, try_acquire}
use c_http_1_1_server.Network.Connection.{Connection}
use c_http_1_1_server.Network.EventLoop.{
  EventLoop, is_running, Task, Accept, would_block, transient, fatal, client, register_client,
  admit, accept_client, may_accept, handle_accept, drop_connection, resume_accept, remove_found,
  remove_connection,
}
use c_http_1_1_server.Network.EventLoop.Rounds.{
  Event, wakeup, listening, activity, handle_client_read, handle_client_write, handle_event,
  handle_events, timed_out, remove_all, check_idle_timeouts, check_interval_seconds, submit_found,
}

abbrev pub SameState : EventLoop → EventLoop → Type 0
SameState l after = after.state ≡ l.state

admit-SameState :
    (now : ℕ) (registered : Bool) (fd : ℕ) (ip : Bytes) (l : EventLoop)
    (a : Bool × PerIpConnectionLimiter)
    → SameState l (admit now registered fd ip l a)
unfolding admit register_client
admit-SameState now registered fd ip l (false, after) = refl
admit-SameState now true fd ip l (true, after) = refl
admit-SameState now false fd ip l (true, after) = refl

pub handle_accept-SameState :
    (now : ℕ) (waiting : List Accept) (l : EventLoop) → SameState l (handle_accept now waiting l)
unfolding handle_accept accept_client
handle_accept-SameState now [] l = refl
handle_accept-SameState now (would_block ∷ waiting) l = refl
handle_accept-SameState now (fatal ∷ waiting) l = refl
handle_accept-SameState now (transient ∷ waiting) l =
    either_way (SameState l) (may_accept l) (handle_accept-SameState now waiting l) refl
handle_accept-SameState now (client fd ip registered ∷ waiting) l =
    let a = try_acquire ip l.ip_conn_limiter in
    either_way (SameState l) (may_accept l)
      (handle_accept-SameState now waiting (admit now registered fd ip l a)
        ∙ admit-SameState now registered fd ip l a)
      refl

pub remove_connection-SameState :
    (now : ℕ) (waiting : List Accept) (fd : ℕ) (l : EventLoop)
    → SameState l (remove_connection now waiting fd l)
unfolding remove_connection remove_found resume_accept drop_connection
remove_connection-SameState now waiting fd l = found (find_fd fd l.connections)
  where
    found : (o : Option Connection) → SameState l (remove_found now waiting fd l o)
    found none = refl
    found (some c) =
        let l' = drop_connection fd c l in
        either_way (SameState l) (is_running l'.state && l'.server_open)
          (handle_accept-SameState now waiting l') refl

submit_found-SameState :
    (task : Task) (l : EventLoop) (o : Option Connection) → SameState l (submit_found task l o)
submit_found-SameState task l none = refl
submit_found-SameState task l (some c) = refl

read-SameState : (fd : ℕ) (l : EventLoop) → SameState l (handle_client_read fd l)
unfolding handle_client_read
read-SameState fd l =
    either_way (SameState l) (is_running l.state)
      (submit_found-SameState _ l (find_fd fd l.connections)) refl

write-SameState : (fd : ℕ) (l : EventLoop) → SameState l (handle_client_write fd l)
unfolding handle_client_write
write-SameState fd l = submit_found-SameState _ l (find_fd fd l.connections)

handle_event-SameState : (now : ℕ) (e : Event) (l : EventLoop) → SameState l (handle_event now e l)
unfolding handle_event
handle_event-SameState now wakeup l = refl
handle_event-SameState now (listening waiting) l =
    either_way (SameState l) (is_running l.state) (handle_accept-SameState now waiting l) refl
handle_event-SameState now (activity fd hup i o waiting) l =
    let l' = if i && is_running l.state then handle_client_read fd l else l in
    let same : SameState l l' =
      either_way (SameState l) (i && is_running l.state) (read-SameState fd l) refl in
    either_way (SameState l) hup (remove_connection-SameState now waiting fd l)
      (either_way (SameState l) o (write-SameState fd l' ∙ same) same)

pub handle_events-SameState :
    (now : ℕ) (es : List Event) (l : EventLoop) → SameState l (handle_events now es l)
unfolding handle_events
handle_events-SameState now [] l = refl
handle_events-SameState now (e ∷ es) l =
    handle_events-SameState now es (handle_event now e l) ∙ handle_event-SameState now e l

remove_all-SameState :
    (now : ℕ) (waiting : ℕ → List Accept) (fds : List ℕ) (l : EventLoop)
    → SameState l (remove_all now waiting fds l)
unfolding remove_all
remove_all-SameState now waiting [] l = refl
remove_all-SameState now waiting (fd ∷ fds) l =
    remove_all-SameState now waiting fds (remove_connection now (waiting fd) fd l)
    ∙ remove_connection-SameState now (waiting fd) fd l

pub check_idle-SameState :
    (now : ℕ) (waiting : ℕ → List Accept) (l : EventLoop)
    → SameState l (check_idle_timeouts now waiting l)
unfolding check_idle_timeouts
check_idle-SameState now waiting l =
    either_way (SameState l)
      (ltb ((now - l.last_timeout_check) / 1000000000) check_interval_seconds) refl
      (remove_all-SameState now waiting (timed_out now l.connections)
        (record l { last_timeout_check = now }))
