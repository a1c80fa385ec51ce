-- ===== src/Main/Signals.antt =====
-- `signal_handler` and `g_server` (main.cpp), and the call of `server.run()` that a signal may interrupt.
-- `std::signal` has the handler called for SIGINT and SIGTERM; while the server runs, `g_server` points
-- to it, and a signal comes between two rounds of its loop.
pub mod Calls
use c_http_1_1_server.Base.{ℕ, List, [], ◌∷◌, Option, none, some, if◌then◌else◌}
use c_http_1_1_server.Network.EventLoop.{EventLoop, running}
use c_http_1_1_server.Network.EventLoop.Rounds.{
  Round, Ran, waiting, ended, is_stopped, continue, run_round, finish,
}
use c_http_1_1_server.Network.TcpServer
use c_http_1_1_server.Network.TcpServer.{TcpServer}

-- `g_server` is the argument, `none` before the server is made.
unfoldable pub signal_handler : ℕ → Option TcpServer → Option TcpServer
unfolding TcpServer.stop
signal_handler now none = none
signal_handler now (some s) = some (TcpServer.stop now s)

-- What happens while the main thread is in `run`: a round of the loop, or a signal at a time.
pub data Happening : Type 0 where
  round : Round → Happening
  signal : ℕ → Happening

-- The loop that the server has.
abbrev pub loop_of : EventLoop → Option EventLoop → EventLoop
loop_of l none = l
loop_of l (some l') = l'

-- With what the handler has made of `g_server`.
abbrev pub after_signal :
    (EventLoop → TcpServer → Ran) → EventLoop → TcpServer → Option TcpServer → Ran
after_signal go_on l s none = go_on l s
after_signal go_on l s (some s') = go_on (loop_of l s'.event_loop) s'

-- The rounds of the loop `l` of the server `s`, and the signals between them.
unfoldable pub run_signals : List Happening → EventLoop → TcpServer → Ran
unfolding run_round finish signal_handler
run_signals [] l s = if is_stopped l.state then ended (finish l) else waiting l
run_signals (round r ∷ happenings) l s =
    let rest = continue (λ l'. run_signals happenings l' s) (run_round r l) in
    if is_stopped l.state then ended (finish l) else rest
run_signals (signal now ∷ happenings) l s =
    let rest =
      after_signal (run_signals happenings) l s
        (signal_handler now (some (record s { event_loop = some l }))) in
    if is_stopped l.state then ended (finish l) else rest

abbrev pub run_found : ℕ → List Happening → TcpServer → Option EventLoop → Option Ran
run_found now happenings s none = none
run_found now happenings s (some l) =
    if s.is_running
    then some (run_signals happenings (record l { state = running; last_timeout_check = now }) s)
    else none

-- `server.run()`: `none` if it returns at once.
unfoldable pub run : ℕ → List Happening → TcpServer → Option Ran
unfolding run_signals
run now happenings s = run_found now happenings s s.event_loop
