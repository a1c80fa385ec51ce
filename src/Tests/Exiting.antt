-- ===== src/Tests/Exiting.antt =====
-- The program from its first line to its end.
use c_http_1_1_server.Base.{ℕ, refl, arith, true, false, [], ◌∷◌, ◌++◌, some, Bytes, codes}
use c_http_1_1_server.Utils.LogEntry
use c_http_1_1_server.Utils.LogEntry.{LogEntry, plain_entry}
use c_http_1_1_server.Utils.Logger.History.{logs, works, logged}
use c_http_1_1_server.Network.EventLoop.Rounds.{Round, events, interrupted, wakeup}
use c_http_1_1_server.Main.Signals.{round, signal}
use c_http_1_1_server.Network.TcpServer.{Answers}
use c_http_1_1_server.Main.Process.{Surroundings}
use c_http_1_1_server.Main.Process.Exit.{
  Exits, initializing, listening, not_started, fully_stopped, main_failed, main_stops,
}

abbrev noon : ℕ → Bytes
noon s = codes "12:00:00"

abbrev entry : LogEntry
entry =
    plain_entry LogEntry.Level.warn (some 3) (codes "setsockopt SO_REUSEADDR failed.") (codes "1") 0

abbrev busy_port : Answers
busy_port = record {
  socket_made = true;
  reuse_set = false;
  flag_read = some false;
  flag_set = true;
  bound = false;
  listening = true;
  loop_setup = record {
    epoll_created = true;
    eventfd_created = true;
    wakeup_added = true;
    server_added = true;
  };
}

abbrev clock : ℕ → ℕ
clock n = n

abbrev refused : Surroundings
refused = record {
  opened = true;
  thread_id = codes "1";
  clock = clock;
  answers = busy_port;
  starting = logs entry ∷ works ∷ [];
  serving = [];
  finishing = works ∷ logs entry ∷ [];
  leaving = logs entry ∷ [];
  began = 0;
  happenings = [];
}

main_failed_example :
    Exits noon noon 9 refused 1 (
      initializing refused ∷ logged refused.starting
      ++ not_started refused ∷ logged refused.leaving)
main_failed_example = main_failed noon noon 9 refused refl (omega arith)

-- A round after which the loop goes on, and one 6 seconds later.
abbrev first_round : Round
first_round = record { polled = interrupted; now = 1; waiting = λ fd. [] }

abbrev late_round : Round
late_round = record { polled = events (wakeup ∷ []); now = 6000000000; waiting = λ fd. [] }

abbrev served : Surroundings
served = record refused {
  answers = record busy_port { bound = true };
  serving = logs entry ∷ [];
  happenings = round first_round ∷ signal 2 ∷ round first_round ∷ signal 3 ∷ round late_round ∷ [];
}

main_stops_example : Exits noon noon 9 served 0 (
    initializing served ∷ logged served.starting
    ++ listening served ∷ logged served.serving
    ++ fully_stopped served ∷ logged served.finishing)
main_stops_example =
    main_stops noon noon 9 served (first_round ∷ []) 2 (round first_round ∷ signal 3 ∷ [])
      late_round (wakeup ∷ []) [] refl refl refl (omega arith) (omega arith)
