-- ===== src/Tests/Serving.antt =====
-- The middleware and the network code on small inputs.
use c_http_1_1_server.Base.{◌≡◌, true, false, not, [], ◌∷◌, ◌++◌, Bytes, codes}
use c_http_1_1_server.Middleware.PerIpConnectionLimiter.{
  PerIpConnectionLimiter, limiter, try_acquire,
}
use c_http_1_1_server.Network.Connection.{
  Connection, accepted, would_block, connect, append_unsent_data, flush, has_pending_writes,
}
use c_http_1_1_server.Network.Connection.Flush.{flush_keeps}

abbrev home : Bytes
home = codes "127.0.0.1"

abbrev other : Bytes
other = codes "10.0.0.1"

abbrev busy : PerIpConnectionLimiter
busy = let (_, l) = try_acquire home (limiter 1) in l

abbrev waiting : Connection
waiting = append_unsent_data 0 (codes "abc") (connect 0 7)

flush_keeps_example :
    let (f, after) = flush (accepted 1 ∷ would_block ∷ []) waiting in
    (f.wire ++ after.write_buffer ≡ waiting.write_buffer)
    × (has_pending_writes after ≡ not f.all_sent)
    × (f.has_error ≡ true → f.all_sent ≡ false)
flush_keeps_example = flush_keeps (accepted 1 ∷ would_block ∷ []) waiting
