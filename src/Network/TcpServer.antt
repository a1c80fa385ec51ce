-- ===== src/Network/TcpServer.antt =====
-- `TcpServer` (include/network/TcpServer.h, src/network/TcpServer.cpp) and `SocketUtils`
-- (src/network/SocketUtils.cpp), with what the kernel answers. The task queue and the threads of the
-- pool, which the server owns, stand in Concurrency.
pub mod Lifecycle
use c_http_1_1_server.Base.{
  ℕ, Bool, true, false, not, ◌&&◌, if◌then◌else◌, List, [], Option, none, some, Bytes,
}
use c_http_1_1_server.Http.Router
use c_http_1_1_server.Http.Router.{HttpRouter, HttpHandler}
use c_http_1_1_server.Network.EventLoop.{EventLoop}
use c_http_1_1_server.Network.EventLoop.Start
use c_http_1_1_server.Network.EventLoop.Start.{Setup, constructed}
use c_http_1_1_server.Network.EventLoop.Rounds
use c_http_1_1_server.Network.EventLoop.Rounds.{Input, Ran}

-- `set_non_blocking`: `flag` is whether `F_GETFL` finds the descriptor non-blocking, `none` if it fails;
-- the result, and the flag afterwards.
unfoldable pub set_non_blocking : Option Bool → Bool → Bool × Option Bool
set_non_blocking none set = (false, none)
set_non_blocking (some flag) set = if set then (true, some true) else (false, some flag)

-- `event_loop` is the pointer; `server_open` is whether `server_fd` is a descriptor.
pub record TcpServer : Type 0 where
  pub server_open : Bool
  pub non_blocking : Option Bool
  pub port : ℕ
  pub is_running : Bool
  pub router : HttpRouter
  pub event_loop : Option EventLoop

abbrev pub server : ℕ → TcpServer
server port_num = record {
  server_open = false;
  non_blocking = none;
  port = port_num;
  is_running = false;
  router = Router.empty;
  event_loop = none;
}

unfoldable pub get : Bytes → HttpHandler → TcpServer → TcpServer
get path handler s = record s { router = Router.get path handler s.router }

unfoldable pub post : Bytes → HttpHandler → TcpServer → TcpServer
post path handler s = record s { router = Router.post path handler s.router }

unfoldable pub put : Bytes → HttpHandler → TcpServer → TcpServer
put path handler s = record s { router = Router.put path handler s.router }

unfoldable pub del : Bytes → HttpHandler → TcpServer → TcpServer
del path handler s = record s { router = Router.del path handler s.router }

-- What the kernel answers to `start`: whether each call succeeds, in order. A failure of `setsockopt` is
-- only logged, and the result of `set_non_blocking` is not looked at.
pub record Answers : Type 0 where
  pub socket_made : Bool
  pub reuse_set : Bool
  pub flag_read : Option Bool
  pub flag_set : Bool
  pub bound : Bool
  pub listening : Bool
  pub loop_setup : Setup

abbrev pub with_loop : TcpServer → Bool × EventLoop → Bool × TcpServer
with_loop s (false, l) = (false, record s { event_loop = some l })
with_loop s (true, l) = (true, record s { event_loop = some l; is_running = true })

unfoldable pub start : Answers → TcpServer → Bool × TcpServer
unfolding set_non_blocking Start.start
start a s =
    let made = record s { server_open = true } in
    let prepared = record made { non_blocking = (set_non_blocking a.flag_read a.flag_set).1 } in
    if not a.socket_made
    then (false, record s { server_open = false })
    else if not a.bound
    then (false, prepared)
    else if not a.listening
    then (false, prepared)
    else with_loop prepared (Start.start a.loop_setup constructed)

abbrev pub run_found : ℕ → List Input → TcpServer → Option EventLoop → Option Ran
run_found now inputs s none = none
run_found now inputs s (some l) = if s.is_running then some (Rounds.run now inputs l) else none

-- `none` if it returns at once.
unfoldable pub run : ℕ → List Input → TcpServer → Option Ran
unfolding Rounds.run
run now inputs s = run_found now inputs s s.event_loop

abbrev pub stopped_loop : ℕ → Option EventLoop → Option EventLoop
stopped_loop now none = none
stopped_loop now (some l) = some (Rounds.stop now l)

-- Also the destructor.
unfoldable pub stop : ℕ → TcpServer → TcpServer
unfolding Rounds.stop
stop now s =
    if s.is_running
    then record s { is_running = false; event_loop = stopped_loop now s.event_loop }
    else s
