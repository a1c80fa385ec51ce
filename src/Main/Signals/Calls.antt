-- ===== src/Main/Signals/Calls.antt =====
-- Which calls of `EventLoop::stop` the signals make.
use c_http_1_1_server.Base.{
  ℕ, ◌≡◌, refl, sym, ap, ◌∙◌, arith, Bool, true, false, Bool-cases, inl, inr, List, [], ◌∷◌, ◌++◌,
  map, Option, none, some, if◌then◌else◌, fun_ext,
}
use c_http_1_1_server.Network.EventLoop.{EventLoop, running, started}
use c_http_1_1_server.Network.EventLoop.Rounds
use c_http_1_1_server.Network.EventLoop.Rounds.{
  Round, Ran, ended, Input, is_stopped, continue, run_round, run_loop, finish,
}
use c_http_1_1_server.Network.TcpServer
use c_http_1_1_server.Network.TcpServer.{TcpServer, Answers, start}
use c_http_1_1_server.Network.TcpServer.Lifecycle.{all_answered}
use c_http_1_1_server.Network.EventLoop.Start
use c_http_1_1_server.Main.Signals.{
  Happening, round, signal, signal_handler, run_signals, after_signal, run_found, run,
}

-- The first signal stops the loop, if the server runs; the others do nothing.
abbrev pub calls : Bool → List Happening → List Input
calls serving [] = []
calls serving (round r ∷ happenings) = Input.round r ∷ calls serving happenings
calls true (signal now ∷ happenings) = Input.stop_called now ∷ calls false happenings
calls false (signal now ∷ happenings) = calls false happenings

signal_off :
    (now : ℕ) (happenings : List Happening) (l : EventLoop) (s : TcpServer)
    → s.is_running ≡ false
    → (after_signal
        (run_signals happenings)
        l
        s
        (signal_handler now (some (record s { event_loop = some l }))))
      ≡ run_signals happenings l (record s { event_loop = some l })
unfolding signal_handler TcpServer.stop
signal_off now happenings l s off = rw off refl

signal_on :
    (now : ℕ) (happenings : List Happening) (l : EventLoop) (s : TcpServer)
    → s.is_running ≡ true
    → (after_signal
        (run_signals happenings)
        l
        s
        (signal_handler now (some (record s { event_loop = some l }))))
      ≡ run_signals happenings
          (Rounds.stop now l)
          (record s { is_running = false; event_loop = some (Rounds.stop now l) })
unfolding signal_handler TcpServer.stop
signal_on now happenings l s on = rw on refl

run_loop_off :
    (inputs : List Input) (l : EventLoop)
    → is_stopped l.state ≡ true
    → run_loop inputs l ≡ ended (finish l)
unfolding run_loop
run_loop_off [] l off = rw off refl
run_loop_off (Input.stop_called now ∷ inputs) l off = rw off refl
run_loop_off (Input.round r ∷ inputs) l off = rw off refl

-- The loop does what it does with these calls.
pub run_signals-run_loop :
    (happenings : List Happening) (l : EventLoop) (s : TcpServer) (serving : Bool)
    → s.is_running ≡ serving
    → run_signals happenings l s ≡ run_loop (calls serving happenings) l
unfolding run_signals run_loop
run_signals-run_loop [] l s serving e = refl
run_signals-run_loop (round r ∷ happenings) l s serving e =
    ap
      (λ (go : EventLoop → Ran).
        if is_stopped l.state then ended (finish l) else continue go (run_round r l))
      (fun_ext (λ l'. run_signals-run_loop happenings l' s serving e))
run_signals-run_loop (signal now ∷ happenings) l s true e =
    ap (λ (o : Ran). if is_stopped l.state then ended (finish l) else o)
      (signal_on now happenings l s e
        ∙ run_signals-run_loop happenings (Rounds.stop now l)
            (record s { is_running = false; event_loop = some (Rounds.stop now l) }) false refl)
run_signals-run_loop (signal now ∷ happenings) l s false e =
    elim (Bool-cases (is_stopped l.state)) [
      | inl off ↦ rw off (sym (run_loop_off (calls false happenings) l off))
      | inr on ↦ rw on (
          signal_off now happenings l s e
          ∙ run_signals-run_loop happenings l (record s { event_loop = some l }) false e)
    ]

calls-append :
    (before after : List Happening)
    → calls false (before ++ after) ≡ calls false before ++ calls false after
calls-append [] after = refl
calls-append (round r ∷ before) after = ap (◌∷◌ (Input.round r)) (calls-append before after)
calls-append (signal now ∷ before) after = calls-append before after

pub calls-first :
    (rounds : List Round) (t : ℕ) (between after : List Happening)
    → calls true (map round rounds ++ signal t ∷ between ++ after)
      ≡ map Input.round rounds ++ Input.stop_called t ∷ calls false between ++ calls false after
calls-first [] t between after = ap (◌∷◌ (Input.stop_called t)) (calls-append between after)
calls-first (r ∷ rounds) t between after =
    ap (◌∷◌ (Input.round r)) (calls-first rounds t between after)

runs_found :
    (now : ℕ) (happenings : List Happening) (s : TcpServer) (o : Option EventLoop)
    → o ≡ some started
    → s.is_running ≡ true
    → run_found now happenings s o ≡ some (Rounds.run now (calls true happenings) started)
unfolding Rounds.run
runs_found now happenings s o e on =
    ap (run_found now happenings s) e
    ∙ ap
        (λ b.
          if b
          then some (
              run_signals happenings (record started { state = running; last_timeout_check = now })
                s)
          else none)
        on
    ∙ ap some (
        run_signals-run_loop happenings
          (record started { state = running; last_timeout_check = now }) s true on)

starts :
    (a : Answers) (s : TcpServer)
    → all_answered a ≡ true
    → ((start a s).1.event_loop ≡ some started) × ((start a s).1.is_running ≡ true)
unfolding start Start.start
starts a s answered = ground arith

-- A server that has started runs its loop, which the first signal stops.
pub run-start :
    (now : ℕ) (happenings : List Happening) (a : Answers) (s : TcpServer)
    → all_answered a ≡ true
    → run now happenings (start a s).1 ≡ some (Rounds.run now (calls true happenings) started)
unfolding run
run-start now happenings a s answered =
    let (found, on) = starts a s answered in
    runs_found now happenings (start a s).1 (start a s).1.event_loop found on
