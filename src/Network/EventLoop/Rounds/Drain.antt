-- ===== src/Network/EventLoop/Rounds/Drain.antt =====
-- A loop that does not run accepts no connection, and one that is stopping ends in time.
use c_http_1_1_server.Base.{
  ℕ, ◌+◌, ◌*◌, ◌≡◌, ◌≤◌, refl, ap, ◌∙◌, arith, true, false, List, [], ◌∷◌, Option, none, some,
}
use c_http_1_1_server.Base.FdMap.{find_fd, weigh, weigh_erase_le}
use c_http_1_1_server.Network.Connection.{Connection}
use c_http_1_1_server.Network.EventLoop.{
  EventLoop, stopping, stopped, is_running, Accept, client_write, drop_connection, resume_accept,
  remove_found, remove_connection,
}
use c_http_1_1_server.Network.EventLoop.Table.{one}
use c_http_1_1_server.Network.EventLoop.Rounds.{
  Event, wakeup, listening, activity, handle_client_write, handle_event, handle_events, timed_out,
  remove_all, check_idle_timeouts, cleanup_all_connections, events, Round, close_server,
  check_drained, finish, after_poll, run_round, Input, round, stop_called, ended, run_loop,
  shutdown_timeout, is_stopped, submit_found, continue, cleanup_each,
}

-- `after` has the state of `l`, and no more connections.
abbrev pub Stays : EventLoop → EventLoop → Type 0
Stays l after =
    (after.state ≡ l.state)
    × (after.shutdown_start ≡ l.shutdown_start)
    × (after.server_open ≡ l.server_open)
    × (weigh one after.connections ≤ weigh one l.connections)

Stays-trans : (a b c : EventLoop) → Stays a b → Stays b c → Stays a c
Stays-trans a b c (s, t, o, n) (s', t', o', n') = (s' ∙ s, t' ∙ t, o' ∙ o, omega arith)

remove_found-Stays :
    (now : ℕ) (waiting : List Accept) (fd : ℕ) (l : EventLoop) (o : Option Connection)
    → is_running l.state ≡ false
    → Stays l (remove_found now waiting fd l o)
unfolding remove_found resume_accept drop_connection
remove_found-Stays now waiting fd l none idle = (refl, refl, refl, omega arith)
remove_found-Stays now waiting fd l (some c) idle =
    rw idle (refl, refl, refl, weigh_erase_le one fd l.connections)

remove_connection-Stays :
    (now : ℕ) (waiting : List Accept) (fd : ℕ) (l : EventLoop)
    → is_running l.state ≡ false
    → Stays l (remove_connection now waiting fd l)
unfolding remove_connection
remove_connection-Stays now waiting fd l idle =
    remove_found-Stays now waiting fd l (find_fd fd l.connections) idle

write-Stays : (fd : ℕ) (l : EventLoop) → Stays l (handle_client_write fd l)
unfolding handle_client_write
write-Stays fd l = found (find_fd fd l.connections)
  where
    found : (o : Option Connection) → Stays l (submit_found (client_write fd) l o)
    found none = (refl, refl, refl, omega arith)
    found (some c) = (refl, refl, refl, omega arith)

event-Stays :
    (now : ℕ) (e : Event) (l : EventLoop)
    → is_running l.state ≡ false
    → Stays l (handle_event now e l)
unfolding handle_event
event-Stays now wakeup l idle = (refl, refl, refl, omega arith)
event-Stays now (listening waiting) l idle = rw idle (refl, refl, refl, omega arith)
event-Stays now (activity fd true i o waiting) l idle =
    remove_connection-Stays now waiting fd l idle
event-Stays now (activity fd false true true waiting) l idle = rw idle (write-Stays fd l)
event-Stays now (activity fd false true false waiting) l idle =
    rw idle (refl, refl, refl, omega arith)
event-Stays now (activity fd false false true waiting) l idle = write-Stays fd l
event-Stays now (activity fd false false false waiting) l idle = (refl, refl, refl, omega arith)

-- Once the loop does not run, whatever events arrive, it takes no new connection, and its state and
-- the time limit of its shutdown stay.
pub handle_events-Stays :
    (now : ℕ) (es : List Event) (l : EventLoop)
    → is_running l.state ≡ false
    → Stays l (handle_events now es l)
unfolding handle_events
handle_events-Stays now [] l idle = (refl, refl, refl, omega arith)
handle_events-Stays now (e ∷ es) l idle =
    let first = event-Stays now e l idle in
    Stays-trans l (handle_event now e l) (handle_events now es (handle_event now e l)) first
      (handle_events-Stays now es (handle_event now e l) (ap is_running first.0 ∙ idle))

remove_all-Stays :
    (now : ℕ) (waiting : ℕ → List Accept) (fds : List ℕ) (l : EventLoop)
    → is_running l.state ≡ false
    → Stays l (remove_all now waiting fds l)
unfolding remove_all
remove_all-Stays now waiting [] l idle = (refl, refl, refl, omega arith)
remove_all-Stays now waiting (fd ∷ fds) l idle =
    let next = remove_connection now (waiting fd) fd l in
    let first = remove_connection-Stays now (waiting fd) fd l idle in
    Stays-trans l next (remove_all now waiting fds next) first
      (remove_all-Stays now waiting fds next (ap is_running first.0 ∙ idle))

pub check_idle-Stays :
    (now : ℕ) (waiting : ℕ → List Accept) (l : EventLoop)
    → is_running l.state ≡ false
    → Stays l (check_idle_timeouts now waiting l)
unfolding check_idle_timeouts
check_idle-Stays now waiting l idle = ground (
  arith,
  remove_all-Stays now waiting (timed_out now l.connections) (record l { last_timeout_check = now })
      idle,
)

-- A loop that is stopped ends, whatever its inputs.
pub run_loop_stopped :
    (inputs : List Input) (l : EventLoop) → l.state ≡ stopped → run_loop inputs l ≡ ended (finish l)
unfolding run_loop
run_loop_stopped [] l s = rw (ap is_stopped s) refl
run_loop_stopped (stop_called now ∷ inputs) l s = rw (ap is_stopped s) refl
run_loop_stopped (round r ∷ inputs) l s = rw (ap is_stopped s) refl

pub closed_server :
    (l : EventLoop) → l.state ≡ stopping → close_server l ≡ record l { server_open = false }
unfolding close_server
closed_server l s = rw s refl

expired :
    (now : ℕ) (l : EventLoop)
    → l.state ≡ stopping
    → l.shutdown_start + shutdown_timeout * 1000000 ≤ now
    → check_drained now l ≡ record l { state = stopped }
unfolding check_drained
expired now l s late = rw s (ground arith)

-- The loop after a round of a loop that is stopping and out of time.
late_round :
    (r : Round) (es : List Event) (l : EventLoop)
    → l.state ≡ stopping
    → l.shutdown_start + shutdown_timeout * 1000000 ≤ r.now
    → let after =
        check_idle_timeouts r.now r.waiting
          (check_drained r.now (handle_events r.now es (close_server l))) in
      (after.state ≡ stopped) × (after.server_open ≡ false)
late_round r es l s late =
    let closed = close_server l in
    let c = closed_server l s in
    let stops = ap (λ (x : EventLoop). x.state) c ∙ s in
    let handled = handle_events r.now es closed in
    let (s2, t2, o2, _) = handle_events-Stays r.now es closed (ap is_running stops) in
    let e =
      expired r.now handled (s2 ∙ stops)
        (omega (arith, late, t2, ap (λ (x : EventLoop). x.shutdown_start) c)) in
    let drained = check_drained r.now handled in
    let s3 = ap (λ (x : EventLoop). x.state) e in
    let o3 = ap (λ (x : EventLoop). x.server_open) e in
    let (s4, _, o4, _) = check_idle-Stays r.now r.waiting drained (ap is_running s3) in
    (s4 ∙ s3, o4 ∙ o3 ∙ o2 ∙ ap (λ (x : EventLoop). x.server_open) c)

cleanup_each_server :
    (m : List (ℕ × Connection)) (l : EventLoop) → (cleanup_each m l).server_open ≡ l.server_open
unfolding cleanup_each
cleanup_each_server [] l = refl
cleanup_each_server ((fd, c) ∷ m) l = cleanup_each_server m _

pub finish_leaves :
    (l : EventLoop) → ((finish l).connections ≡ []) × ((finish l).server_open ≡ l.server_open)
unfolding finish cleanup_all_connections
finish_leaves l = (refl, cleanup_each_server l.connections l)

-- A loop that is stopping ends in the first round after the time limit of 5 seconds, whatever events
-- arrive in it and whatever comes later, with its listening socket closed and no connection left.
pub stopping_ends :
    (r : Round) (es : List Event) (inputs : List Input) (l : EventLoop)
    → l.state ≡ stopping
    → r.polled ≡ events es
    → l.shutdown_start + shutdown_timeout * 1000000 ≤ r.now
    → (after : EventLoop) × (run_loop (round r ∷ inputs) l ≡ ended after)
      × (after.connections ≡ [])
      × (after.server_open ≡ false)
unfolding run_loop run_round after_poll
stopping_ends r es inputs l s p late =
    let last =
      check_idle_timeouts r.now r.waiting
        (check_drained r.now (handle_events r.now es (close_server l))) in
    let (s', o') = late_round r es l s late in
    let (none_left, same) = finish_leaves last in
    (
      finish last,
      rw (ap is_stopped s) (
          ap (continue (run_loop inputs)) (ap (after_poll r (close_server l)) p)
          ∙ run_loop_stopped inputs last s'),
      none_left,
      same ∙ o',
    )
