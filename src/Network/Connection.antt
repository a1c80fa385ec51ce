-- ===== src/Network/Connection.antt =====
-- `Connection` (include/network/Connection.h, src/network/Connection.cpp): its buffers, parser and
-- request, and `flush`. What `send` does is a list of results, one for each call, which the loop
-- reads in order; a socket that is out of results would block. A time is a number of nanoseconds,
-- given by the caller.
pub mod Flush
use c_http_1_1_server.Base.{
  ℕ, zero, suc, ◌-◌, ◌/◌, Bool, true, false, not, List, [], ◌∷◌, ◌++◌, Option, none, some, min,
  length, take, drop, Bytes,
}
use c_http_1_1_server.Http.Request
use c_http_1_1_server.Http.Request.{HttpRequest}
use c_http_1_1_server.Http.Parser
use c_http_1_1_server.Http.Parser.{HttpRequestParser}

pub record Connection : Type 0 where
  pub fd : ℕ
  pub client_ip : Bytes
  pub read_buffer : Bytes
  pub write_buffer : Bytes
  pub close_after_write_flag : Bool
  pub last_activity : ℕ
  pub parser : HttpRequestParser
  pub request : HttpRequest

unfoldable pub connect : ℕ → ℕ → Connection
connect now client_fd = record {
  fd = client_fd;
  client_ip = [];
  read_buffer = [];
  write_buffer = [];
  close_after_write_flag = false;
  last_activity = now;
  parser = Parser.fresh;
  request = Request.fresh;
}

unfoldable pub set_client_ip : Bytes → Connection → Connection
set_client_ip ip c = record c { client_ip = ip }

unfoldable pub update_activity : ℕ → Connection → Connection
update_activity now c = record c { last_activity = now }

-- Whole seconds: the code's callers compare with whole bounds.
unfoldable pub seconds_since_last_activity : ℕ → Connection → ℕ
seconds_since_last_activity now c = (now - c.last_activity) / 1000000000

unfoldable pub append_unsent_data : ℕ → Bytes → Connection → Connection
append_unsent_data now data_ c = record c {
  write_buffer = c.write_buffer ++ data_;
  last_activity = now;
}

unfoldable pub append_read_data : ℕ → Bytes → Connection → Connection
append_read_data now data_ c = record c {
  read_buffer = c.read_buffer ++ data_;
  last_activity = now;
}

unfoldable pub mark_close_after_write : Connection → Connection
mark_close_after_write c = record c { close_after_write_flag = true }

unfoldable pub has_pending_writes : Connection → Bool
has_pending_writes c = elim c.write_buffer [ [] ↦ false | x ∷ xs ↦ true ]

-- One call of `send`: it takes one byte more than the number, at most all that it is given; or it
-- returns 0; or it fails with `EAGAIN` or `EWOULDBLOCK`, or with another error.
pub data Sent : Type 0 where
  accepted : ℕ → Sent
  nothing would_block failed : Sent

-- What `flush` leaves: whether all was sent, `has_error`, the bytes that went out, and those left.
pub record Flushed : Type 0 where
  pub all_sent : Bool
  pub has_error : Bool
  pub wire : Bytes
  pub unsent : Bytes

abbrev sent_first : Bytes → Flushed → Flushed
sent_first bytes f = record f { wire = bytes ++ f.wire }

unfoldable pub flush_loop : List Sent → Bytes → Flushed
flush_loop results [] = record { all_sent = true; has_error = false; wire = []; unsent = [] }
flush_loop [] (b ∷ bs) = record { all_sent = false; has_error = false; wire = []; unsent = b ∷ bs }
flush_loop (accepted n ∷ results) (b ∷ bs) =
    sent_first (b ∷ take n bs) (flush_loop results (drop n bs))
flush_loop (nothing ∷ results) (b ∷ bs) = record {
  all_sent = false;
  has_error = false;
  wire = [];
  unsent = b ∷ bs;
}
flush_loop (would_block ∷ results) (b ∷ bs) = record {
  all_sent = false;
  has_error = false;
  wire = [];
  unsent = b ∷ bs;
}
flush_loop (failed ∷ results) (b ∷ bs) = record {
  all_sent = false;
  has_error = true;
  wire = [];
  unsent = b ∷ bs;
}

-- The result of the call, and the connection after it.
unfoldable pub flush : List Sent → Connection → Flushed × Connection
unfolding flush_loop
flush results c =
    let f = flush_loop results c.write_buffer in (f, record c { write_buffer = f.unsent })
