-- ===== src/Network/WriteTask/Drained.antt =====
-- What a write task leaves behind.
use c_http_1_1_server.Base.{◌≡◌, ◌⊎◌, arith, Bool, true, false, not, List}
use c_http_1_1_server.Network.Connection.{Connection, Sent, Flushed, flush, has_pending_writes}
use c_http_1_1_server.Network.Connection.Flush.{flush_keeps}
use c_http_1_1_server.Network.ReadTask.{Action, remove, watch}
use c_http_1_1_server.Network.WriteTask.{after_write, client_write}

-- What may become of a connection: `error` and `running` are what `send` met and whether the loop runs.
abbrev pub WriteOutcome : Bool → Bool → Action × Connection → Type 0
WriteOutcome error running (remove, c) =
    (error ≡ true)
    ⊎ ((has_pending_writes c ≡ false) × ((c.close_after_write_flag ≡ true) ⊎ (running ≡ false)))
WriteOutcome error running (watch i again, c) =
    (error ≡ false)
    × (i.epoll_out ≡ has_pending_writes c)
    × (i.epoll_in ≡ running)
    × (has_pending_writes c ≡ false → c.close_after_write_flag ≡ false)

after_write-WriteOutcome :
    (running : Bool) (f : Flushed) (c : Connection)
    → has_pending_writes c ≡ not f.all_sent
    → WriteOutcome f.has_error running (after_write running (f, c))
unfolding after_write
after_write-WriteOutcome running f c pending = ground arith

-- A write task removes a connection only after an error, or with nothing left to send and either a
-- close that was asked for or a loop that is stopping; any other connection it keeps, watched for
-- writing exactly if bytes are left, and for reading exactly if the loop runs.
pub client_write-WriteOutcome :
    (running : Bool) (sends : List Sent) (c : Connection)
    → WriteOutcome (flush sends c).0.has_error running (client_write running sends c)
unfolding client_write
client_write-WriteOutcome running sends c =
    let (f, after) = flush sends c in
    after_write-WriteOutcome running f after (flush_keeps sends c).1
