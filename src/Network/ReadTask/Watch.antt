-- ===== src/Network/ReadTask/Watch.antt =====
-- What a read task leaves behind.
use c_http_1_1_server.Base.{ℕ, ◌≡◌, refl, ap, arith, Bool, true, false, List, some, Bytes}
use c_http_1_1_server.Http.Router.{HttpRouter}
use c_http_1_1_server.Network.Connection.{
  Connection, Sent, Flushed, mark_close_after_write, has_pending_writes, flush,
}
use c_http_1_1_server.Network.Worker.{Ending, max_rounds}
use c_http_1_1_server.Network.Worker.Answers.{serve-Answers}
use c_http_1_1_server.Network.ReadTask.{
  Received, receive, Action, remove, watch, rearm, after_flush, after_serve, read_received,
  client_read,
}

-- A connection that is kept is watched for writing if a write is pending, and it is watched for
-- reading unless it is marked to be closed after the write.
abbrev pub IsWatched : Action × Connection → Type 0
IsWatched (remove, c) = Unit
IsWatched (watch i again, c) =
    (has_pending_writes c ≡ true → i.epoll_out ≡ true)
    × (i.epoll_in ≡ false → c.close_after_write_flag ≡ true)

rearm-IsWatched : (again sent : Bool) (c : Connection) → IsWatched (rearm again sent c)
unfolding rearm
rearm-IsWatched again sent c = ground arith

after_flush-IsWatched :
    (e : Ending) (f : Flushed) (c : Connection) → IsWatched (after_flush e (f, c))
unfolding after_flush mark_close_after_write
after_flush-IsWatched Ending.refused f c = ground arith
after_flush-IsWatched Ending.close_after_response f c = ground arith
after_flush-IsWatched Ending.has_more f c = ground (arith, rearm-IsWatched true f.all_sent c)
after_flush-IsWatched Ending.emptied f c = ground (arith, rearm-IsWatched false f.all_sent c)
after_flush-IsWatched Ending.incomplete f c = ground (arith, rearm-IsWatched false f.all_sent c)

module _ {L : Type 0} (allow : Bytes → L → Bool × L)
    (walk : List (Bytes × Bytes) → List (Bytes × Bytes)) (router : HttpRouter) (now : ℕ) where
  read_received-IsWatched :
      (sends : List Sent) (l : L) (r : Bool × Connection)
      → (a : Action × Connection) × (read_received allow walk router now sends l r ≡ some a)
        × IsWatched a
  unfolding read_received after_serve
  read_received-IsWatched sends l (true, c) = ((remove, c), refl, tt)
  read_received-IsWatched sends l (false, c) =
      let (s, e, _) = serve-Answers allow walk router now max_rounds c l in
      let (f, after) = flush sends s.connection in
      (
        after_flush s.ending (f, after),
        ap (after_serve sends) e,
        after_flush-IsWatched s.ending f after,
      )

  -- A read task always comes to its end, whatever `recv` and `send` do, and then either removes the
  -- connection or keeps it watched: for writing if a write is pending, and for reading unless the
  -- connection is marked to be closed once its bytes are out.
  pub client_read-IsWatched :
      (results : List Received) (sends : List Sent) (c : Connection) (l : L)
      → (a : Action × Connection) × (client_read allow walk router now results sends c l ≡ some a)
        × IsWatched a
  unfolding client_read
  client_read-IsWatched results sends c l = read_received-IsWatched sends l (receive now results c)
