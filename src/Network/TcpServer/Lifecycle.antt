-- ===== src/Network/TcpServer/Lifecycle.antt =====
-- When the server serves.
use c_http_1_1_server.Base.{ℕ, ◌≡◌, arith, Bool, true, false, ◌&&◌, if◌then◌else◌, List, none, some}
use c_http_1_1_server.Network.EventLoop.{started}
use c_http_1_1_server.Network.EventLoop.Start
use c_http_1_1_server.Network.EventLoop.Start.{Setup, constructed}
use c_http_1_1_server.Network.EventLoop.Rounds
use c_http_1_1_server.Network.EventLoop.Rounds.{Input}
use c_http_1_1_server.Network.TcpServer.{TcpServer, Answers, start, run, stop}

-- Every call that must succeed does.
abbrev pub all_set : Setup → Bool
all_set s = s.epoll_created && s.eventfd_created && s.wakeup_added && s.server_added

abbrev pub all_answered : Answers → Bool
all_answered a = a.socket_made && a.bound && a.listening && all_set a.loop_setup

start_loop :
    (s : Setup)
    → ((Start.start s constructed).0 ≡ all_set s)
      × (all_set s ≡ true → Start.start s constructed ≡ (true, started))
unfolding Start.start
start_loop s = ground arith

-- `start` of a server that does not run succeeds exactly if the socket is made, bound and listening, and
-- each call of the loop's set-up succeeds. Then `run` runs the loop from its first state, unless `stop`
-- was called before, and it returns at once in every other case.
pub start_outcome :
    (now later : ℕ) (inputs : List Input) (a : Answers) (s : TcpServer)
    → s.is_running ≡ false
    → let (succeeded, s') = start a s in
      (succeeded ≡ all_answered a)
      × (run now inputs s' ≡ (if succeeded then some (Rounds.run now inputs started) else none))
      × (run now inputs (stop later s') ≡ none)
unfolding start run stop Start.start
start_outcome now later inputs a s idle = ground arith
