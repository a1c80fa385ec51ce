-- ===== src/Network/WriteTask.antt =====
-- The task that `EventLoop::handle_client_write` gives to the pool (src/network/EventLoop.cpp). The
-- results of `send` are a list.
pub mod Drained
use c_http_1_1_server.Base.{Bool, true, false, ◌&&◌, List, if◌then◌else◌}
use c_http_1_1_server.Network.Connection.{Connection, Sent, Flushed, flush}
use c_http_1_1_server.Network.ReadTask.{Action, remove, watch, in_only}

-- From the flush on, with its outcome and whether the loop runs.
unfoldable pub after_write : Bool → Flushed × Connection → Action × Connection
after_write running (f, c) =
    if f.has_error
    then (remove, c)
    else if f.all_sent && c.close_after_write_flag
    then (remove, c)
    else if f.all_sent
    then (if running then (watch in_only false, c) else (remove, c))
    else (watch (record { epoll_in = running; epoll_out = true }) false, c)

unfoldable pub client_write : Bool → List Sent → Connection → Action × Connection
unfolding after_write flush
client_write running sends c = after_write running (flush sends c)
