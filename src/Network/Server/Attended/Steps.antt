-- ===== src/Network/Server/Attended/Steps.antt =====
-- What the steps of the loop and of the workers do to the connections that are cared for.
use c_http_1_1_server.Base.{
  ℕ, ◌≡◌, arith, Bool, true, false, ◌&&◌, ◌||◌, List, [], ◌∷◌, ◌++◌, subst, either_way,
}
use c_http_1_1_server.Network.Connection.{Connection}
use c_http_1_1_server.Network.EventLoop.{EventLoop, Task, Accept, is_running, remove_connection}
use c_http_1_1_server.Network.EventLoop.Rounds.{
  Event, wakeup, listening, activity, modify_epoll, handle_client_read, handle_event, remove_all,
  timed_out, check_idle_timeouts, close_server, check_drained, stop,
}
use c_http_1_1_server.Network.ReadTask.{Action, remove, watch}
use c_http_1_1_server.Network.Server.{
  disarmed, disarm, RemovalFresh, EventFresh, RemovalsFresh, CheckFresh, resubmit, perform,
  after_task, TaskFresh, AllFlagged,
}
use c_http_1_1_server.Network.Server.Attended.{
  AllAttended, excused, has_event, fd_of, remove_connection-Attended, handle_accept-Attended,
}
use c_http_1_1_server.Network.Server.Attended.Turns.{
  has_task-append, more-Attended, arm-Attended, disarm_one-Attended, take-Attended,
  put_back-Attended, if_running-Attended, read-Attended, write-Attended,
}

module _ (also : ℕ → Bool) where
  excuse-Attended : (fd : ℕ) (l : EventLoop) → AllAttended also l → AllAttended (excused fd also) l
  excuse-Attended fd l a = more-Attended also (excused fd also) l (λ j e. ground (arith, e)) a

  pub handle_activity-Attended :
      (now fd : ℕ) (hup_or_err epoll_in epoll_out : Bool) (waiting : List Accept) (l : EventLoop)
      → (hup_or_err || epoll_in || epoll_out) ≡ true
      → AllAttended (excused fd also) l
      → RemovalFresh now waiting fd l
      → AllAttended also (handle_event now (activity fd hup_or_err epoll_in epoll_out waiting) l)
  unfolding handle_event
  handle_activity-Attended now fd true i o waiting l flagged a f =
      remove_connection-Attended also now waiting fd l a f
  handle_activity-Attended now fd false true true waiting l flagged a f = write-Attended also fd _ (
      if_running-Attended (excused fd also) l (handle_client_read fd l)
        (excuse-Attended fd (handle_client_read fd l) (read-Attended also fd l a)))
  handle_activity-Attended now fd false true false waiting l flagged a f =
      if_running-Attended also l (handle_client_read fd l) (read-Attended also fd l a)
  handle_activity-Attended now fd false false true waiting l flagged a f =
      write-Attended also fd l a
  handle_activity-Attended now fd false false false waiting l flagged a f = ground (arith, flagged)

  remove_all-Attended :
      (now : ℕ) (waiting : ℕ → List Accept) (fds : List ℕ) (l : EventLoop)
      → AllAttended also l
      → RemovalsFresh now waiting fds l
      → AllAttended also (remove_all now waiting fds l)
  unfolding remove_all
  remove_all-Attended now waiting [] l a f = a
  remove_all-Attended now waiting (fd ∷ fds) l a f =
      remove_all-Attended now waiting fds (remove_connection now (waiting fd) fd l)
        (remove_connection-Attended also now (waiting fd) fd l (excuse-Attended fd l a) f.0) f.1

  idle-Attended :
      (now : ℕ) (waiting : ℕ → List Accept) (l : EventLoop)
      → AllAttended also l
      → CheckFresh now waiting l
      → AllAttended also (check_idle_timeouts now waiting l)
  unfolding check_idle_timeouts
  idle-Attended now waiting l a f = either_way (AllAttended also) _ a (
      remove_all-Attended now waiting (timed_out now l.connections)
        (record l { last_timeout_check = now }) a f)

  -- A step that keeps a loop that runs on as it was.
  kept-Attended :
      (l l' : EventLoop)
      → (is_running l'.state ≡ true → l ≡ l')
      → AllAttended also l
      → AllAttended also l'
  kept-Attended l l' same a r = subst (AllAttended also) (same r) a r

  pub stop-Attended : (now : ℕ) (l : EventLoop) → AllAttended also l → AllAttended also (stop now l)
  unfolding stop
  stop-Attended now l a = kept-Attended l (stop now l) (λ r. ground (arith, r)) a

  pub close_server-Attended :
      (l : EventLoop) → AllAttended also l → AllAttended also (close_server l)
  unfolding close_server
  close_server-Attended l a = kept-Attended l (close_server l) (λ r. ground (arith, r)) a

  check_drained-Attended :
      (now : ℕ) (l : EventLoop) → AllAttended also l → AllAttended also (check_drained now l)
  unfolding check_drained
  check_drained-Attended now l a = kept-Attended l (check_drained now l) (λ r. ground (arith, r)) a

  pub check-Attended :
      (now : ℕ) (waiting : ℕ → List Accept) (l : EventLoop)
      → AllAttended also l
      → CheckFresh now waiting (check_drained now l)
      → AllAttended also (check_idle_timeouts now waiting (check_drained now l))
  check-Attended now waiting l a f =
      idle-Attended now waiting (check_drained now l) (check_drained-Attended now l a) f

  resubmit-Attended :
      (again : Bool) (fd : ℕ) (l : EventLoop)
      → AllAttended also l
      → AllAttended also (resubmit again fd l)
  unfolding resubmit
  resubmit-Attended again fd l a =
      either_way (AllAttended also) (again && is_running l.state)
        (λ r j c h.
          ground (arith, a r j c h, has_task-append j l.submitted (Task.read_again fd ∷ [])))
        a

pub handle_event-Attended :
    (now : ℕ) (e : Event) (es : List Event) (l : EventLoop)
    → AllFlagged (e ∷ es)
    → AllAttended (λ j. has_event j (e ∷ es)) l
    → EventFresh now e l
    → AllAttended (λ j. has_event j es) (handle_event now e l)
unfolding handle_event
handle_event-Attended now wakeup es l k a f = a
handle_event-Attended now (listening waiting) es l k a f =
    either_way (AllAttended (λ j. has_event j es)) (is_running l.state)
      (handle_accept-Attended (λ j. has_event j es) now waiting l a f) a
handle_event-Attended now (activity fd h i o waiting) es l k a f =
    handle_activity-Attended (λ j. has_event j es) now fd h i o waiting l k.0 a f

pub disarm-Attended :
    (es : List Event) (p : ℕ → Bool) (l : EventLoop)
    → AllAttended p l
    → AllAttended (λ j. has_event j es || p j) (disarm es l)
unfolding disarm
disarm-Attended [] p l a = a
disarm-Attended (wakeup ∷ es) p l a = disarm-Attended es p l a
disarm-Attended (listening waiting ∷ es) p l a = disarm-Attended es p l a
disarm-Attended (activity fd h i o waiting ∷ es) p l a =
    more-Attended (λ j. has_event j es || excused fd p j)
      (λ j. has_event j (activity fd h i o waiting ∷ es) || p j)
      (disarm es (modify_epoll fd disarmed l)) (λ j e. ground (arith, e))
      (disarm-Attended es (excused fd p) (modify_epoll fd disarmed l)
        (disarm_one-Attended p fd l a))

-- An action that is a removal, or leaves the descriptor armed.
abbrev pub IsArming : Action → Type 0
IsArming remove = Unit
IsArming (watch flags again) = (flags.epoll_in || flags.epoll_out) ≡ true

module _ (also : ℕ → Bool) where
  perform-Attended :
      (now : ℕ) (waiting : List Accept) (fd : ℕ) (action : Action) (l : EventLoop)
      → IsArming action
      → AllAttended (excused fd also) l
      → RemovalFresh now waiting fd l
      → AllAttended also (perform now waiting fd action l)
  unfolding perform
  perform-Attended now waiting fd remove l k a f =
      remove_connection-Attended also now waiting fd l a f
  perform-Attended now waiting fd (watch i again) l k a f =
      resubmit-Attended also again fd (modify_epoll fd i l) (arm-Attended also fd i l k a)

  -- The end of a task that removes the connection or arms its descriptor.
  pub after_task-Attended :
      (now : ℕ) (waiting : List Accept) (before : List Task) (t : Task) (after : List Task)
      (a : Action × Connection) (l : EventLoop)
      → l.submitted ≡ before ++ t ∷ after
      → IsArming a.0
      → AllAttended also l
      → TaskFresh now waiting (fd_of t) a (before ++ after) l
      → AllAttended also (after_task now waiting (fd_of t) a (before ++ after) l)
  after_task-Attended now waiting before t after (action, c) l e k a f =
      perform-Attended now waiting (fd_of t) action _ k
        (put_back-Attended (excused (fd_of t) also) (fd_of t) c _
          (take-Attended also before t after l e a))
        f
