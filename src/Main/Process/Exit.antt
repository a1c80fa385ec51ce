-- ===== src/Main/Process/Exit.antt =====
-- How the program ends, and what its log says then.
use c_http_1_1_server.Base.{
  ℕ, ◌+◌, ◌*◌, ◌≤◌, ◌<◌, ◌≡◌, refl, sym, ap, ◌∙◌, arith, Bool, true, false, List, [], ◌∷◌, ◌++◌,
  map, length, length-append, Option, some, none, Bytes, codes, if◌then◌else◌,
}
use c_http_1_1_server.Utils.LogEntry.{Level, LogEntry, json, plain_entry}
use c_http_1_1_server.Utils.Logger
use c_http_1_1_server.Utils.Logger.{Logger, ended, fresh, init}
use c_http_1_1_server.Utils.Logger.History.{Call, logs, logged, lines, run_calls, stop_ends}
use c_http_1_1_server.Utils.Logger.Calls.{
  logged-append, run_calls-append, run_calls_queue, run_calls_stopped,
}
use c_http_1_1_server.Network.EventLoop.{EventLoop, running, started}
use c_http_1_1_server.Network.EventLoop.Rounds
use c_http_1_1_server.Network.EventLoop.Rounds.{Event, Input, Ran, Round, events, shutdown_timeout}
use c_http_1_1_server.Network.EventLoop.Rounds.Signal.{signal_drains}
use c_http_1_1_server.Network.TcpServer
use c_http_1_1_server.Network.TcpServer.{TcpServer}
use c_http_1_1_server.Network.TcpServer.Lifecycle.{all_answered, start_outcome}
use c_http_1_1_server.Main.{app}
use c_http_1_1_server.Main.Signals.{Happening, round, signal, run}
use c_http_1_1_server.Main.Signals.Calls.{calls, calls-first, run-start}
use c_http_1_1_server.Main.Process.{
  Surroundings, exits, main, after_start, after_run, begin, shut_down, leave, then_leave,
}

-- A line of the main thread.
abbrev pub said : Surroundings → Level → ℕ → Bytes → LogEntry
said w level n msg = plain_entry level none msg w.thread_id (w.clock n)

abbrev pub initializing : Surroundings → LogEntry
initializing w = said w Level.info 0 (codes "HTTP Server initializing on port 8080")

abbrev pub not_started : Surroundings → LogEntry
not_started w = said w Level.error 1 (codes "Failed to start server")

abbrev pub listening : Surroundings → LogEntry
listening w = said w Level.info 1 (codes "HTTP Server Listetning on port 8080")

abbrev pub fully_stopped : Surroundings → LogEntry
fully_stopped w = said w Level.info 2 (codes "Server fully stopped. Exiting main().")

-- What is logged before `start` returns.
abbrev before : Surroundings → List Call
before w = logs (initializing w) ∷ w.starting

module _ (local_time gm_time : ℕ → Bytes) (fuel : ℕ) (w : Surroundings) where
  -- The program ends with the code, its log has the entries, in order, and nothing waits to be written.
  abbrev pub Exits : ℕ → List LogEntry → Type 0
  Exits code entries =
      (l : Logger) × (main local_time gm_time fuel w ≡ exits code (ended l))
      × (l.queue ≡ [])
      × (l.output ≡ lines local_time gm_time json entries)
      × (l.log_file ≡ (if w.opened then lines local_time gm_time json entries else []))

  -- The logger behind some calls from its `init` on.
  abbrev logger_after : List Call → Logger
  logger_after calls = run_calls local_time gm_time calls (init w.opened json fresh)

  enough_queue :
      (calls : List Call) → length calls + 1 ≤ fuel → length (logger_after calls).queue < fuel
  unfolding init
  enough_queue calls h =
      omega (arith, run_calls_queue local_time gm_time calls (init w.opened json fresh))

  idle : app.is_running ≡ false
  unfolding app TcpServer.get TcpServer.post TcpServer.put TcpServer.del
  idle = refl

  failure_calls : List Call
  failure_calls = before w ++ logs (not_started w) ∷ w.leaving

  failed_start :
      (s : Bool × TcpServer)
      → s.0 ≡ false
      → after_start local_time gm_time fuel w (begin local_time gm_time fuel w) s
        ≡ exits 1 (Logger.stop local_time gm_time fuel (logger_after failure_calls))
  unfolding after_start begin leave run_calls Logger.log Logger.destroy failure_calls
  failed_start (true, s) e = absurd cc
  failed_start (false, s) e =
      ap (λ l. exits 1 (Logger.stop local_time gm_time fuel l))
        (sym (
          run_calls-append local_time gm_time (before w) (logs (not_started w) ∷ w.leaving)
            (init w.opened json fresh)))

  -- A server that cannot start makes the program end with the code 1; its lines, and all that others
  -- have logged before its end, are written, in order.
  pub main_failed :
      all_answered w.answers ≡ false
      → length w.starting + length w.leaving + 3 ≤ fuel
      → Exits 1 (initializing w ∷ logged w.starting ++ not_started w ∷ logged w.leaving)
  unfolding main failure_calls
  main_failed refused enough =
      let (same, _, _) = start_outcome w.began w.began [] w.answers app idle in
      let e = failed_start (TcpServer.start w.answers app) (same ∙ refused) in
      let (l, stops, done, _, output, file) =
        stop_ends local_time gm_time w.opened json failure_calls fuel (
          enough_queue failure_calls
            (omega (arith, length-append w.starting (logs (not_started w) ∷ w.leaving)))) in
      let entries = logged-append (before w) (logs (not_started w) ∷ w.leaving) in
      (
        l,
        e ∙ ap (exits 1) stops,
        done,
        output ∙ ap (lines local_time gm_time json) entries,
        file ∙ ap (λ es. if w.opened then lines local_time gm_time json es else []) entries,
      )

  serving_calls : List Call
  serving_calls = before w ++ logs (listening w) ∷ w.serving

  success_calls : List Call
  success_calls = serving_calls ++ logs (fully_stopped w) ∷ w.finishing

  after_stop :
      (l : Logger) → l.running ≡ false → l.queue ≡ [] → leave local_time gm_time fuel w l ≡ ended l
  unfolding leave Logger.destroy Logger.stop
  after_stop l off done =
      rw (run_calls_stopped local_time gm_time w.leaving l off done) (rw off refl)

  shut_down_calls :
      shut_down local_time gm_time fuel w (logger_after serving_calls)
      ≡ exits 0 (
          then_leave local_time gm_time fuel w
            (Logger.stop local_time gm_time fuel (logger_after success_calls)))
  unfolding shut_down success_calls run_calls Logger.log
  shut_down_calls =
      ap
        (λ l.
          exits 0 (then_leave local_time gm_time fuel w (Logger.stop local_time gm_time fuel l)))
        (sym (
          run_calls-append local_time gm_time serving_calls (logs (fully_stopped w) ∷ w.finishing)
            (init w.opened json fresh)))

  after_run_ended :
      (o : Option Ran) (e : EventLoop)
      → o ≡ some (Ran.ended e)
      → after_run local_time gm_time fuel w (logger_after serving_calls) o
        ≡ shut_down local_time gm_time fuel w (logger_after serving_calls)
  after_run_ended o e p = ap (after_run local_time gm_time fuel w (logger_after serving_calls)) p

  started_server :
      (s : Bool × TcpServer)
      → s.0 ≡ true
      → after_start local_time gm_time fuel w (begin local_time gm_time fuel w) s
        ≡ after_run local_time gm_time fuel w
            (logger_after serving_calls)
            (run w.began w.happenings s.1)
  unfolding after_start begin run_calls Logger.log serving_calls
  started_server (false, s) e = absurd cc
  started_server (true, s) e =
      ap (λ l. after_run local_time gm_time fuel w l (run w.began w.happenings s))
        (sym (
          run_calls-append local_time gm_time (before w) (logs (listening w) ∷ w.serving)
            (init w.opened json fresh)))

  logged_success :
      logged success_calls
      ≡ initializing w ∷ logged w.starting
        ++ listening w ∷ logged w.serving
        ++ fully_stopped w ∷ logged w.finishing
  unfolding success_calls serving_calls
  logged_success =
      logged-append serving_calls (logs (fully_stopped w) ∷ w.finishing)
      ∙ ap (λ es. es ++ fully_stopped w ∷ logged w.finishing)
          (logged-append (before w) (logs (listening w) ∷ w.serving))

  stopped_exit :
      (e : EventLoop)
      → all_answered w.answers ≡ true
      → Rounds.run w.began (calls true w.happenings) started ≡ Ran.ended e
      → main local_time gm_time fuel w
        ≡ exits 0 (
            then_leave local_time gm_time fuel w
              (Logger.stop local_time gm_time fuel (logger_after success_calls)))
  unfolding main
  stopped_exit e answered ends =
      let (same, _, _) = start_outcome w.began w.began [] w.answers app idle in
      let succeeds = same ∙ answered in
      started_server (TcpServer.start w.answers app) succeeds
      ∙ after_run_ended _ e (run-start w.began w.happenings w.answers app answered ∙ ap some ends)
      ∙ shut_down_calls

  -- A server starts, and its process gets SIGINT or SIGTERM, at the time `t` for the first time, after
  -- some rounds of the loop; then come any rounds and signals, and a round 5 seconds later at least.
  -- Then the handler has stopped the server, and the program ends with the code 0, whatever happens
  -- in the rounds and after that one; its lines, and all that others have logged before the logger
  -- is stopped, are written, in order, but nothing that is logged while the server is destroyed.
  pub main_stops :
      (rounds : List Round) (t : ℕ) (between : List Happening) (r : Round) (es : List Event)
      (later : List Happening)
      → all_answered w.answers ≡ true
      → w.happenings ≡ map round rounds ++ signal t ∷ between ++ round r ∷ later
      → r.polled ≡ events es
      → t + shutdown_timeout * 1000000 ≤ r.now
      → length w.starting + length w.serving + length w.finishing + 4 ≤ fuel
      → Exits 0 (
          initializing w ∷ logged w.starting
          ++ listening w ∷ logged w.serving
          ++ fully_stopped w ∷ logged w.finishing)
  unfolding Rounds.run success_calls serving_calls
  main_stops rounds t between r es later answered happened seen late enough =
      let begun = record started { state = running; last_timeout_check = w.began } in
      let made = ap (calls true) happened ∙ calls-first rounds t between (round r ∷ later) in
      let (e, ends, _) =
        signal_drains r es (calls false later) t seen late rounds (calls false between) begun
          refl in
      let exit = stopped_exit e answered (ap (λ is. Rounds.run w.began is started) made ∙ ends) in
      let (l, stops, done, off, output, file) =
        stop_ends local_time gm_time w.opened json success_calls fuel (
          enough_queue success_calls (
            omega (
              arith,
              length-append serving_calls (logs (fully_stopped w) ∷ w.finishing),
              length-append (before w) (logs (listening w) ∷ w.serving),
            ))) in
      (
        l,
        exit
            ∙ ap (λ p. exits 0 (then_leave local_time gm_time fuel w p)) stops
            ∙ ap (exits 0) (after_stop l off done),
        done,
        output ∙ ap (lines local_time gm_time json) logged_success,
        file ∙ ap (λ es. if w.opened then lines local_time gm_time json es else []) logged_success,
      )
