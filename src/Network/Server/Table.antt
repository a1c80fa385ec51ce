-- ===== src/Network/Server/Table.antt =====
-- The table stays right while workers and the loop take turns.
use c_http_1_1_server.Base.{
  ℕ, ◌≡◌, refl, sym, ap, ◌∙◌, arith, Bool, List, [], ◌∷◌, Option, none, some, if◌then◌else◌,
  bytes_eq, subst, inl, inr, either_way, ltb, ◌-◌, ◌/◌,
}
use c_http_1_1_server.Base.FdMap.{find_fd, put_fd, Distinct, weigh, put-Distinct, weigh_put_same}
use c_http_1_1_server.Middleware.PerIpConnectionLimiter.{held}
use c_http_1_1_server.Network.Connection.{Connection}
use c_http_1_1_server.Network.EventLoop.{EventLoop, Interest, Task, Accept, remove_connection}
use c_http_1_1_server.Network.EventLoop.Table.{
  IsValid, from, one, handle_accept-IsValid, remove_connection-IsValid,
}
use c_http_1_1_server.Network.EventLoop.Rounds.{
  Event, wakeup, listening, activity, stop, modify_epoll, handle_client_read, handle_client_write,
  handle_event, submit_found, remove_all, timed_out, check_idle_timeouts, close_server,
  check_drained, swept, check_interval_seconds,
}
use c_http_1_1_server.Network.ReadTask.{Action, remove, watch}
use c_http_1_1_server.Network.Server.{
  disarm, put_back, resubmit, perform, after_task, RemovalFresh, EventFresh, RemovalsFresh,
  TaskFresh, Holds, disarmed, put_found, CheckFresh,
}

-- What `IsValid` looks at is the same.
abbrev pub Same : EventLoop → EventLoop → Type 0
Same l l' =
    (l.connections ≡ l'.connections)
    × (l.active_connections ≡ l'.active_connections)
    × (l.ip_conn_limiter ≡ l'.ip_conn_limiter)

pub Same-IsValid : (l l' : EventLoop) → Same l l' → IsValid l → IsValid l'
Same-IsValid l l' (e, f, g) v = record {
  distinct = subst Distinct e v.distinct;
  counted = sym f ∙ v.counted ∙ ap (weigh one) e;
  slots = λ ip. ap (held ip) (sym g) ∙ v.slots ip ∙ ap (weigh (from ip)) e;
  total = omega (arith, f, v.total);
}

pub modify_epoll-Same : (fd : ℕ) (i : Interest) (l : EventLoop) → Same l (modify_epoll fd i l)
unfolding modify_epoll
modify_epoll-Same fd i l = ground arith

submit_found-Same : (t : Task) (l : EventLoop) (o : Option Connection) → Same l (submit_found t l o)
submit_found-Same t l none = (refl, refl, refl)
submit_found-Same t l (some c) = (refl, refl, refl)

pub handle_client_write-Same : (fd : ℕ) (l : EventLoop) → Same l (handle_client_write fd l)
unfolding handle_client_write
handle_client_write-Same fd l = submit_found-Same _ l (find_fd fd l.connections)

pub handle_client_read-Same : (fd : ℕ) (l : EventLoop) → Same l (handle_client_read fd l)
unfolding handle_client_read
handle_client_read-Same fd l = ground arith

pub resubmit-Same : (again : Bool) (fd : ℕ) (l : EventLoop) → Same l (resubmit again fd l)
unfolding resubmit
resubmit-Same again fd l = ground arith

pub disarm-Same : (es : List Event) (l : EventLoop) → Same l (disarm es l)
unfolding disarm
disarm-Same [] l = (refl, refl, refl)
disarm-Same (wakeup ∷ es) l = disarm-Same es l
disarm-Same (listening waiting ∷ es) l = disarm-Same es l
disarm-Same (activity fd h i o waiting ∷ es) l =
    let (a, b, c) = modify_epoll-Same fd disarmed l in
    let (a', b', c') = disarm-Same es (modify_epoll fd disarmed l) in (a ∙ a', b ∙ b', c ∙ c')

pub close_server-Same : (l : EventLoop) → Same l (close_server l)
unfolding close_server
close_server-Same l = ground arith

pub stop-Same : (now : ℕ) (l : EventLoop) → Same l (stop now l)
unfolding stop
stop-Same now l = ground arith

pub check_drained-Same : (now : ℕ) (l : EventLoop) → Same l (check_drained now l)
unfolding check_drained
check_drained-Same now l = ground arith

put_back-IsValid :
    (fd : ℕ) (c old : Connection) (l : EventLoop)
    → find_fd fd l.connections ≡ some old
    → old.client_ip ≡ c.client_ip
    → IsValid l
    → IsValid (record l { connections = put_fd fd c l.connections })
put_back-IsValid fd c old l found same v = record {
  distinct = put-Distinct fd c l.connections v.distinct;
  counted = v.counted ∙ sym (weigh_put_same one fd old c l.connections found refl);
  slots = λ ip.
      v.slots ip
      ∙ sym (
          weigh_put_same (from ip) fd old c l.connections found
            (ap (λ who. if bytes_eq who ip then 1 else 0) same));
  total = v.total;
}

put_back_found-IsValid :
    (fd : ℕ) (c : Connection) (l : EventLoop)
    → Holds fd c l
    → (a : Connection) → a.client_ip ≡ c.client_ip
    → IsValid l
    → IsValid (put_back fd a l)
unfolding put_back
put_back_found-IsValid fd c l (inl found) a same v =
    subst (λ o. IsValid (put_found fd a l o)) (sym found)
      (put_back-IsValid fd a c l found (sym same) v)
put_back_found-IsValid fd c l (inr absent) a same v =
    subst (λ o. IsValid (put_found fd a l o)) (sym absent) v

pub perform-IsValid :
    (now : ℕ) (waiting : List Accept) (fd : ℕ) (action : Action) (l : EventLoop)
    → IsValid l
    → RemovalFresh now waiting fd l
    → IsValid (perform now waiting fd action l)
unfolding perform
perform-IsValid now waiting fd remove l v f = remove_connection-IsValid now waiting fd l v f
perform-IsValid now waiting fd (watch i again) l v f =
    Same-IsValid (modify_epoll fd i l) _ (resubmit-Same again fd (modify_epoll fd i l))
      (Same-IsValid l _ (modify_epoll-Same fd i l) v)

-- The end of a task that leaves the address of its connection as it was.
pub after_task-IsValid :
    (now : ℕ) (waiting : List Accept) (fd : ℕ) (c : Connection) (a : Action × Connection)
    (submitted : List Task) (l : EventLoop)
    → IsValid l
    → Holds fd c l
    → a.1.client_ip ≡ c.client_ip
    → TaskFresh now waiting fd a submitted l
    → IsValid (after_task now waiting fd a submitted l)
after_task-IsValid now waiting fd c (action, c') submitted l v h same f =
    perform-IsValid now waiting fd action _
      (put_back_found-IsValid fd c (record l { submitted = submitted }) h c' same
        (Same-IsValid l _ (refl, refl, refl) v))
      f

handle_activity-IsValid :
    (now fd : ℕ) (h i o : Bool) (waiting : List Accept) (l : EventLoop)
    → IsValid l
    → RemovalFresh now waiting fd l
    → IsValid (handle_event now (activity fd h i o waiting) l)
unfolding handle_event
handle_activity-IsValid now fd h i o waiting l v f = ground (
  arith,
  remove_connection-IsValid now waiting fd l v f,
  Same-IsValid l (handle_client_read fd l) (handle_client_read-Same fd l) v,
  Same-IsValid l (handle_client_write fd l) (handle_client_write-Same fd l) v,
  Same-IsValid (handle_client_read fd l) (handle_client_write fd (handle_client_read fd l))
      (handle_client_write-Same fd (handle_client_read fd l)),
)

pub handle_event-IsValid :
    (now : ℕ) (e : Event) (l : EventLoop)
    → IsValid l
    → EventFresh now e l
    → IsValid (handle_event now e l)
unfolding handle_event
handle_event-IsValid now wakeup l v f = v
handle_event-IsValid now (listening waiting) l v f =
    ground (arith, handle_accept-IsValid now waiting l v f)
handle_event-IsValid now (activity fd h i o waiting) l v f =
    handle_activity-IsValid now fd h i o waiting l v f

remove_all-IsValid :
    (now : ℕ) (waiting : ℕ → List Accept) (fds : List ℕ) (l : EventLoop)
    → IsValid l
    → RemovalsFresh now waiting fds l
    → IsValid (remove_all now waiting fds l)
unfolding remove_all
remove_all-IsValid now waiting [] l v f = v
remove_all-IsValid now waiting (fd ∷ fds) l v f =
    remove_all-IsValid now waiting fds (remove_connection now (waiting fd) fd l)
      (remove_connection-IsValid now (waiting fd) fd l v f.0) f.1

pub idle-IsValid :
    (now : ℕ) (waiting : ℕ → List Accept) (l : EventLoop)
    → IsValid l
    → CheckFresh now waiting l
    → IsValid (check_idle_timeouts now waiting l)
unfolding check_idle_timeouts
idle-IsValid now waiting l v f =
    let checked = record l { last_timeout_check = now } in
    let left = remove_all now waiting (timed_out now l.connections) checked in
    let w =
      remove_all-IsValid now waiting (timed_out now l.connections) checked
        (Same-IsValid l checked (refl, refl, refl) v) f in
    either_way IsValid (ltb ((now - l.last_timeout_check) / 1000000000) check_interval_seconds) v
      (Same-IsValid left (swept now left) (refl, refl, refl) w)

pub check-IsValid :
    (now : ℕ) (waiting : ℕ → List Accept) (l : EventLoop)
    → IsValid l
    → CheckFresh now waiting (check_drained now l)
    → IsValid (check_idle_timeouts now waiting (check_drained now l))
check-IsValid now waiting l v f =
    idle-IsValid now waiting (check_drained now l) (Same-IsValid l _ (check_drained-Same now l) v) f

pub poll-IsValid :
    (es : List Event) (l : EventLoop) → IsValid l → IsValid (disarm es (close_server l))
poll-IsValid es l v =
    Same-IsValid (close_server l) _ (disarm-Same es (close_server l))
      (Same-IsValid l _ (close_server-Same l) v)
