-- ===== src/Network/ReadTask.antt =====
-- The task that `EventLoop::handle_client_read` gives to the pool (src/network/EventLoop.cpp), from
-- the receive loop to the re-arming, for a loop that runs. The results of `recv` and of `send` are
-- lists; a socket that is out of results would block.
pub mod Watch
use c_http_1_1_server.Base.{
  ℕ, Bool, true, false, not, ◌||◌, List, [], ◌∷◌, Option, none, some, if◌then◌else◌, Bytes,
}
use c_http_1_1_server.Http.Router.{HttpRouter}
use c_http_1_1_server.Network.Connection.{
  Connection, Sent, Flushed, append_read_data, mark_close_after_write, has_pending_writes, flush,
}
use c_http_1_1_server.Network.EventLoop.{Interest}
use c_http_1_1_server.Network.Worker.{Ending, Served, max_rounds, serve}

pub data Received : Type 0 where
  bytes : Bytes → Received
  closed would_block failed : Received

-- Whether the connection is to be closed, and the connection with what has arrived.
unfoldable pub receive : ℕ → List Received → Connection → Bool × Connection
receive now [] c = (false, c)
receive now (bytes arrived ∷ results) c = receive now results (append_read_data now arrived c)
receive now (closed ∷ results) c = (true, c)
receive now (would_block ∷ results) c = (false, c)
receive now (failed ∷ results) c = (true, c)

-- What the task does last: `remove_connection`, or `modify_epoll` with the flags, and whether it
-- submits another read task.
pub data Action : Type 0 where
  remove : Action
  watch : Interest → Bool → Action

abbrev pub in_only : Interest
in_only = record { epoll_in = true; epoll_out = false }

abbrev pub out_only : Interest
out_only = record { epoll_in = false; epoll_out = true }

-- The re-arming of a connection that stays open.
unfoldable pub rearm : Bool → Bool → Connection → Action × Connection
rearm again fully_flushed c = (
  watch (record { epoll_in = true; epoll_out = not fully_flushed || has_pending_writes c }) again,
  c,
)

-- From the flush on, with its outcome.
unfoldable pub after_flush : Ending → Flushed × Connection → Action × Connection
unfolding rearm
after_flush ending (f, c) = if f.has_error then (remove, c) else (elim ending [
  | Ending.refused ↦ (remove, c)
  | Ending.close_after_response ↦
      if f.all_sent then (remove, c) else (watch out_only false, mark_close_after_write c)
  | Ending.has_more ↦ rearm true f.all_sent c
  | Ending.emptied ↦ rearm false f.all_sent c
  | Ending.incomplete ↦ rearm false f.all_sent c
])

unfoldable pub after_serve :
    {L : Type 0} → List Sent → Option (Served L) → Option (Action × Connection)
unfolding after_flush flush
after_serve sends none = none
after_serve sends (some s) = some (after_flush s.ending (flush sends s.connection))

-- The rate limiter after the parse loop.
abbrev pub limiter_after : {L : Type 0} → L → Option (Served L) → L
limiter_after l none = l
limiter_after l (some s) = s.limiter

module _ {L : Type 0} (allow : Bytes → L → Bool × L)
    (walk : List (Bytes × Bytes) → List (Bytes × Bytes)) (router : HttpRouter) (now : ℕ) where
  unfoldable pub read_received : List Sent → L → Bool × Connection → Option (Action × Connection)
  unfolding after_serve serve
  read_received sends l (true, c) = some (remove, c)
  read_received sends l (false, c) = after_serve sends (serve allow walk router now max_rounds c l)

  unfoldable pub client_read :
      List Received → List Sent → Connection → L → Option (Action × Connection)
  unfolding receive read_received
  client_read results sends c l = read_received sends l (receive now results c)

  -- The rate limiter after the task.
  abbrev pub allowing_received : L → Bool × Connection → L
  allowing_received l (true, c) = l
  allowing_received l (false, c) = limiter_after l (serve allow walk router now max_rounds c l)

  unfoldable pub allowing_after : List Received → Connection → L → L
  unfolding receive
  allowing_after results c l = allowing_received l (receive now results c)
