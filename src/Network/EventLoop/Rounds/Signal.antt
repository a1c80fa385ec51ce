-- ===== src/Network/EventLoop/Rounds/Signal.antt =====
-- What follows a call of `stop` while the loop runs.
use c_http_1_1_server.Base.{
  ℕ, ◌+◌, ◌*◌, ◌≡◌, ◌≤◌, ◌⊎◌, inl, inr, refl, ap, ◌∙◌, arith, false, List, [], ◌∷◌, ◌++◌, map, sym,
  subst, either_way, if◌then◌else◌, leb, ◌||◌, ◌-◌, ◌/◌,
}
use c_http_1_1_server.Network.EventLoop.{EventLoop, running, stopping, stopped, is_running}
use c_http_1_1_server.Network.EventLoop.Rounds.{
  Event, is_empty, Input, round, stop_called, Round, Ran, ended, run_loop, stop, is_stopped, events,
  shutdown_timeout, continue, run_round, finish, Polled, interrupted, failed, close_server,
  after_poll, check_drained, handle_events, check_idle_timeouts,
}
use c_http_1_1_server.Network.EventLoop.Rounds.State.{handle_events-SameState, check_idle-SameState}
use c_http_1_1_server.Network.EventLoop.Rounds.Drain.{
  stopping_ends, handle_events-Stays, check_idle-Stays, closed_server, finish_leaves,
  run_loop_stopped,
}

-- The loop ends with no connection left.
abbrev Ends : Ran → Type 0
Ends o = (after : EventLoop) × (o ≡ ended after) × (after.connections ≡ [])

-- A loop that is stopping since `t`.
abbrev Stops : ℕ → EventLoop → Type 0
Stops t l = (l.state ≡ stopping) × (l.shutdown_start ≡ t)

finish-Ends : (l : EventLoop) → Ends (ended (finish l))
finish-Ends l = (finish l, refl, (finish_leaves l).0)

running_drained : (now : ℕ) (l : EventLoop) → l.state ≡ running → check_drained now l ≡ l
unfolding check_drained
running_drained now l on = rw on refl

running_server : (l : EventLoop) → l.state ≡ running → close_server l ≡ l
unfolding close_server
running_server l on = rw on refl

stopping_drained :
    (now : ℕ) (l : EventLoop)
    → l.state ≡ stopping
    → (check_drained now l ≡ l) ⊎ ((check_drained now l).state ≡ stopped)
unfolding check_drained
stopping_drained now l on =
    let over =
      is_empty l.connections || leb shutdown_timeout ((now - l.shutdown_start) / 1000000) in
    subst (λ (x : EventLoop). (x ≡ l) ⊎ (x.state ≡ stopped))
      (sym (
        ap
          (λ s. elim s [
            | running ↦ l
            | stopping ↦ if over then record l { state = stopped } else l
            | stopped ↦ l
          ])
          on))
      (either_way (λ (x : EventLoop). (x ≡ l) ⊎ (x.state ≡ stopped)) over (inr refl) (inl refl))

stop-Stops : (t now : ℕ) (l : EventLoop) → Stops t l → Stops t (stop now l)
unfolding stop
stop-Stops t now l (on, since) = rw on (refl, since)

first-Stops : (t : ℕ) (l : EventLoop) → l.state ≡ running → Stops t (stop t l)
unfolding stop
first-Stops t l on = rw on (refl, refl)

-- A round of a loop that runs leaves it, or keeps it running.
running_poll :
    (go : EventLoop → Ran) (r : Round) (l : EventLoop) (p : Polled)
    → l.state ≡ running
    → ((l' : EventLoop) → l'.state ≡ running → Ends (go l'))
    → Ends (continue go (after_poll r l p))
unfolding after_poll check_drained
running_poll go r l interrupted on h = h l on
running_poll go r l failed on h = finish-Ends l
running_poll go r l (events es) on h =
    let handled = handle_events r.now es l in
    let still = handle_events-SameState r.now es l ∙ on in
    h (check_idle_timeouts r.now r.waiting (check_drained r.now handled)) (
      check_idle-SameState r.now r.waiting (check_drained r.now handled)
      ∙ ap (λ (x : EventLoop). x.state) (running_drained r.now handled still)
      ∙ still)

-- A round of a loop that is stopping leaves it, or keeps it stopping, or stops it.
stopping_poll :
    (inputs : List Input) (r : Round) (t : ℕ) (l : EventLoop) (p : Polled)
    → Stops t l
    → ((l' : EventLoop) → Stops t l' → Ends (run_loop inputs l'))
    → Ends (continue (run_loop inputs) (after_poll r l p))
unfolding after_poll
stopping_poll inputs r t l interrupted s h = h l s
stopping_poll inputs r t l failed s h = finish-Ends l
stopping_poll inputs r t l (events es) (on, since) h =
    let handled = handle_events r.now es l in
    let drained = check_drained r.now handled in
    let (same, start, _, _) = handle_events-Stays r.now es l (ap is_running on) in
    let last = check_idle_timeouts r.now r.waiting drained in
    let state_kept = check_idle-SameState r.now r.waiting drained in
    elim (stopping_drained r.now handled (same ∙ on)) [
      | inl kept ↦
          let on' = ap (λ (x : EventLoop). x.state) kept ∙ same ∙ on in
          let (_, start', _, _) = check_idle-Stays r.now r.waiting drained (ap is_running on') in
          h last (
            state_kept ∙ on',
            start' ∙ ap (λ (x : EventLoop). x.shutdown_start) kept ∙ start ∙ since,
          )
      | inr done ↦
          (finish last, run_loop_stopped inputs last (state_kept ∙ done), (finish_leaves last).0)
    ]

-- What a loop that is not stopped does next.
next_round :
    (r : Round) (inputs : List Input) (l : EventLoop)
    → is_stopped l.state ≡ false
    → run_loop (round r ∷ inputs) l
      ≡ continue (run_loop inputs) (after_poll r (close_server l) r.polled)
unfolding run_loop run_round
next_round r inputs l on = rw on refl

next_stop :
    (now : ℕ) (inputs : List Input) (l : EventLoop)
    → is_stopped l.state ≡ false
    → run_loop (stop_called now ∷ inputs) l ≡ run_loop inputs (stop now l)
unfolding run_loop
next_stop now inputs l on = rw on refl

module _ (r : Round) (es : List Event) (later : List Input) (t : ℕ) (seen : r.polled ≡ events es)
    (late : t + shutdown_timeout * 1000000 ≤ r.now) where
  stopping_drains :
      (between : List Input) (l : EventLoop)
      → Stops t l
      → Ends (run_loop (between ++ round r ∷ later) l)
  stopping_drains [] l (on, since) =
      let (after, e, empty, _) = stopping_ends r es later l on seen (omega (arith, since)) in
      (after, e, empty)
  stopping_drains (stop_called now ∷ between) l (on, since) =
      subst Ends (sym (next_stop now (between ++ round r ∷ later) l (ap is_stopped on)))
        (stopping_drains between (stop now l) (stop-Stops t now l (on, since)))
  stopping_drains (round r' ∷ between) l (on, since) =
      let rest = between ++ round r ∷ later in
      subst Ends (sym (next_round r' rest l (ap is_stopped on))) (
        stopping_poll rest r' t (close_server l) r'.polled
          (
            ap (λ (x : EventLoop). x.state) (closed_server l on) ∙ on,
            ap (λ (x : EventLoop). x.shutdown_start) (closed_server l on) ∙ since,
          )
          (λ l' s. stopping_drains between l' s))

  -- A loop that runs, and makes some rounds before `stop` is called at the time `t`, ends no later than
  -- in the first round 5 seconds after that, whatever events arrive in the rounds and whatever
  -- stands between them, and it keeps no connection.
  pub signal_drains :
      (rounds : List Round) (between : List Input) (l : EventLoop)
      → l.state ≡ running
      → (after : EventLoop) × (run_loop
            (map round rounds ++ stop_called t ∷ between ++ round r ∷ later)
            l
          ≡ ended after)
        × (after.connections ≡ [])
  signal_drains [] between l on =
      subst Ends (sym (next_stop t (between ++ round r ∷ later) l (ap is_stopped on)))
        (stopping_drains between (stop t l) (first-Stops t l on))
  signal_drains (r' ∷ rounds) between l on =
      let rest = map round rounds ++ stop_called t ∷ between ++ round r ∷ later in
      subst Ends (sym (next_round r' rest l (ap is_stopped on))) (
        running_poll (run_loop rest) r' (close_server l) r'.polled
          (ap (λ (x : EventLoop). x.state) (running_server l on) ∙ on)
          (λ l' on'. signal_drains rounds between l' on'))
