-- ===== src/Main/Process.antt =====
-- `main` (main.cpp): the program from its first line to its end. What happens while the server runs, its
-- signals included, is that of Main.Signals. What the other threads log meanwhile, and the rounds of
-- the logger's worker, are lists.
pub mod Exit
use c_http_1_1_server.Base.{ℕ, Bool, true, false, List, Option, none, some, Bytes, codes}
use c_http_1_1_server.Utils.LogEntry.{Level, json}
use c_http_1_1_server.Utils.Logger
use c_http_1_1_server.Utils.Logger.{
  Logger, Processed, out_of_fuel, waiting, ended, fresh, init, log, destroy,
}
use c_http_1_1_server.Utils.Logger.History.{Call, run_calls}
use c_http_1_1_server.Network.EventLoop.Rounds.{Ran}
use c_http_1_1_server.Network.TcpServer
use c_http_1_1_server.Network.TcpServer.{TcpServer, Answers}
use c_http_1_1_server.Main.{app}
use c_http_1_1_server.Main.Signals.{Happening, run}

-- What the program meets: whether the log file can be opened, how its main thread is printed, the
-- time of each of its lines, what the kernel answers to `start`, what the log gets from others until
-- `start` returns, while the server runs, before the logger stops and after that, the time at which
-- the loop begins, and what happens while it runs.
pub record Surroundings : Type 0 where
  pub opened : Bool
  pub thread_id : Bytes
  pub clock : ℕ → ℕ
  pub answers : Answers
  pub starting : List Call
  pub serving : List Call
  pub finishing : List Call
  pub leaving : List Call
  pub began : ℕ
  pub happenings : List Happening

-- The server runs still, or the program has ended with this code.
pub data Outcome : Type 0 where
  serves : Logger → Outcome
  exits : ℕ → Processed → Outcome

module _ (local_time gm_time : ℕ → Bytes) (fuel : ℕ) (w : Surroundings) where
  abbrev pub say : Level → ℕ → Bytes → Logger → Logger
  say level n msg l = log level none msg w.thread_id (w.clock n) l

  -- Up to the return of `start`.
  unfoldable pub begin : Logger
  unfolding init log run_calls
  begin =
      run_calls local_time gm_time w.starting (
        say Level.info 0 (codes "HTTP Server initializing on port 8080") (init w.opened json fresh))

  -- From `return` on: the server is destroyed, whose pool waits for its threads, and then the logger.
  unfoldable pub leave : Logger → Processed
  unfolding run_calls destroy
  leave l = destroy local_time gm_time fuel (run_calls local_time gm_time w.leaving l)

  abbrev pub then_leave : Processed → Processed
  then_leave out_of_fuel = out_of_fuel
  then_leave (waiting l) = waiting l
  then_leave (ended l) = leave l

  -- Once `run` has returned.
  unfoldable pub shut_down : Logger → Outcome
  unfolding log run_calls leave Logger.stop
  shut_down l =
      let l' =
        run_calls local_time gm_time w.finishing
          (say Level.info 2 (codes "Server fully stopped. Exiting main().") l) in
      exits 0 (then_leave (Logger.stop local_time gm_time fuel l'))

  abbrev pub after_run : Logger → Option Ran → Outcome
  after_run l none = shut_down l
  after_run l (some (Ran.waiting e)) = serves l
  after_run l (some (Ran.ended e)) = shut_down l

  -- With what `start` yields.
  unfoldable pub after_start : Logger → Bool × TcpServer → Outcome
  unfolding log run_calls leave shut_down run
  after_start l (false, s) = exits 1 (leave (say Level.error 1 (codes "Failed to start server") l))
  after_start l (true, s) =
      after_run
        (run_calls local_time gm_time w.serving
          (say Level.info 1 (codes "HTTP Server Listetning on port 8080") l))
        (run w.began w.happenings s)

  unfoldable pub main : Outcome
  unfolding begin after_start app TcpServer.start
  main = after_start begin (TcpServer.start w.answers app)
