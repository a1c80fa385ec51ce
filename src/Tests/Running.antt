-- ===== src/Tests/Running.antt =====
-- A client connects, sends a request, and a worker takes it.
use c_http_1_1_server.Base.{
  ℕ, ◌≡◌, ◌||◌, refl, true, false, List, [], ◌∷◌, some, Bytes, codes, length,
}
use c_http_1_1_server.Base.FdMap.{find_fd, put_fd}
use c_http_1_1_server.Http.Router
use c_http_1_1_server.Middleware.PerIpConnectionLimiter.{try_acquire, held, count_or_zero}
use c_http_1_1_server.Base.StringMap.{lookup, insert}
use c_http_1_1_server.Network.Connection.{Connection, connect, set_client_ip}
use c_http_1_1_server.Network.EventLoop.{
  client, EventLoop, handle_accept, may_accept, accept_client, admit, register_client,
}
use c_http_1_1_server.Network.EventLoop.Table.{IsValid, AllFresh}
use c_http_1_1_server.Network.EventLoop.Rounds.{
  Event, listening, activity, handle_event, modify_epoll, close_server, handle_client_write,
}
use c_http_1_1_server.Network.Server.{Server, Step, disarm}
use c_http_1_1_server.Network.Server.Attended.{is_cared_for, has_task, has_event}
use c_http_1_1_server.Network.Server.Reach.{Reachable, begun, reach-IsValid, reach-attended}
use c_http_1_1_server.Base.FdMap.{weigh}
use c_http_1_1_server.Network.EventLoop.Table.{from}
use c_http_1_1_server.Network.Server.Cap.{reach_capped}
use c_http_1_1_server.Network.TcpServer.{Answers}
use c_http_1_1_server.Http.Headers
use c_http_1_1_server.Http.Request.{HttpMethod, HttpRequest}
use c_http_1_1_server.Http.Router.{route}
use c_http_1_1_server.Main.{app}
use c_http_1_1_server.Main.Routes.{answer_by_method, route-app}
use c_http_1_1_server.Base.{◌≤◌}

abbrev hash_of : Bytes → ℕ
hash_of ip = length ip

abbrev as_is : List (Bytes × Bytes) → List (Bytes × Bytes)
as_is m = m

abbrev home : Bytes
home = codes "127.0.0.1"

abbrev arrival : Event
arrival = listening (client 7 home true ∷ [])

abbrev ready_event : Event
ready_event = activity 7 false false true []

abbrev accepted_loop : EventLoop
accepted_loop = handle_event 2 arrival (disarm (arrival ∷ []) (close_server (begun 1).loop))

abbrev handed_loop : EventLoop
handed_loop = handle_event 4 ready_event (disarm (ready_event ∷ []) (close_server accepted_loop))

abbrev handed : Server
handed = record { loop = handed_loop; events = [] }

handed-Reachable : Reachable hash_of as_is Router.empty handed
unfolding close_server handle_event handle_accept may_accept accept_client admit register_client
    AllFresh find_fd disarm modify_epoll put_fd try_acquire held lookup insert count_or_zero
    handle_client_write connect set_client_ip
handed-Reachable =
    Reachable.later
      (Reachable.later
        (Reachable.later
          (Reachable.later (Reachable.beginning 1)
            (Step.polled (arrival ∷ []) (begun 1).loop refl tt))
          (Step.handled 2 arrival [] _ (refl, tt)))
        (Step.polled (ready_event ∷ []) accepted_loop refl (refl, tt)))
      (Step.handled 4 ready_event [] _ (λ c h. tt))

abbrev seven : Connection
seven = set_client_ip home (connect 2 7)

reach-attended_example :
    is_cared_for
      (has_task 7 handed_loop.submitted || has_event 7 [])
      (find_fd 7 handed_loop.interest)
    ≡ true
unfolding close_server handle_event handle_accept may_accept accept_client admit register_client
    AllFresh find_fd disarm modify_epoll put_fd try_acquire held lookup insert count_or_zero
    handle_client_write connect set_client_ip
reach-attended_example =
    reach-attended hash_of as_is Router.empty handed-Reachable refl 7 seven refl

reach-IsValid_example : IsValid handed_loop
reach-IsValid_example = reach-IsValid hash_of as_is Router.empty handed-Reachable

reach_capped_example : weigh (from home) handed_loop.connections ≤ 100
reach_capped_example = reach_capped hash_of as_is Router.empty handed-Reachable home

abbrev answers : Answers
answers = record {
  socket_made = true;
  reuse_set = false;
  flag_read = some false;
  flag_set = true;
  bound = true;
  listening = true;
  loop_setup = record {
    epoll_created = true;
    eventfd_created = true;
    wakeup_added = true;
    server_added = true;
  };
}

abbrev put_request : HttpRequest
put_request = record {
  method = HttpMethod.put;
  path = codes "/api/resource";
  version = codes "HTTP/1.1";
  headers = Headers.empty;
  body = codes "abc";
}

route-app_example :
    route put_request app.router ≡ answer_by_method put_request.method put_request.path put_request
route-app_example = route-app put_request
