-- ===== src/Network/Worker.antt =====
-- The parse loop of the task that `EventLoop::handle_client_read` gives to the pool
-- (src/network/EventLoop.cpp), on one connection whose lock it holds. The rate limiter is its
-- operation `allow` on a state, and `walk` the order in which a header map is walked. Log lines are
-- left out.
pub mod Promised
pub mod Answers
pub mod Pipeline
pub mod Conversation
pub mod Timeless
pub mod Session
use c_http_1_1_server.Base.{
  ℕ, zero, suc, Bool, true, false, List, Option, none, some, if◌then◌else◌, Bytes, codes, is_empty,
}
use c_http_1_1_server.Http.Request
use c_http_1_1_server.Http.Request.{HttpMethod, HttpRequest, wants_keep_alive}
use c_http_1_1_server.Http.Response
use c_http_1_1_server.Http.Response.{HttpResponse, finalize_for_connection}
use c_http_1_1_server.Http.Parser
use c_http_1_1_server.Http.Parser.{Machine, ParseResult, parse}
use c_http_1_1_server.Http.Encoder.{encode}
use c_http_1_1_server.Http.Router.{HttpRouter, route}
use c_http_1_1_server.Network.Connection.{Connection, append_unsent_data}

unfoldable pub bad_request : HttpResponse
bad_request = finalize_for_connection false false (
    Response.html (codes "<h1>400 Bad Request</h1>")
      (Response.set_status 400 (codes "Bad Request") Response.fresh))

unfoldable pub too_many_requests : HttpResponse
too_many_requests = finalize_for_connection false false (
    Response.html (codes "<h1>429 Too Many Requests</h1>") (
      Response.set_header (codes "Retry-After") (codes "1")
        (Response.set_status 429 (codes "Too Many Requests") Response.fresh)))

-- The parser works on the buffer and the request of the connection.
abbrev pub machine_of : Connection → Machine
machine_of c = record { parser = c.parser; read_buffer = c.read_buffer; request = c.request }

abbrev pub store : Machine → Connection → Connection
store m c = record c { parser = m.parser; read_buffer = m.read_buffer; request = m.request }

-- `req.reset()` and `parser.reset()`.
abbrev pub next_request : Connection → Connection
next_request c = record c { parser = Parser.reset c.parser; request = Request.reset c.request }

-- How the loop ends: the buffer is empty, the request is incomplete, the connection is to be closed
-- after the response, an error response was queued and the connection goes to the cleanup, or the
-- rounds are used up.
pub data Ending : Type 0 where
  emptied incomplete close_after_response refused has_more : Ending

pub record Served (L : Type 0) : Type 0 where
  pub ending : Ending
  pub connection : Connection
  pub limiter : L

abbrev pub is_head : HttpMethod → Bool
is_head HttpMethod.head = true
is_head _ = false

-- 51 rounds: `loop_counter > 50`.
abbrev pub max_rounds : ℕ
max_rounds = 51

module _ {L : Type 0} (allow : Bytes → L → Bool × L)
    (walk : List (Bytes × Bytes) → List (Bytes × Bytes)) (router : HttpRouter) (now : ℕ) where
  unfoldable pub respond : HttpResponse → Connection → Connection
  unfolding append_unsent_data
  respond res c = append_unsent_data now (encode walk res false).0 c

  unfoldable pub handled : HttpRequest → HttpResponse
  handled req =
      finalize_for_connection (wants_keep_alive req) (is_head req.method) (route req router)

  -- A complete request: `go_on` is the rest of the loop.
  abbrev pub answer :
      (Connection → L → Option (Served L)) → Connection → Bool × L → Option (Served L)
  answer go_on c (false, l) =
      some (record { ending = refused; connection = respond too_many_requests c; limiter = l })
  answer go_on c (true, l) =
      let res = handled c.request in
      let c' = next_request (respond res c) in
      let rest = go_on c' l in
      if res.close_after_send
      then some (record { ending = close_after_response; connection = c'; limiter = l })
      else rest

  abbrev pub after_parse :
      (Connection → L → Option (Served L))
      → Connection
      → L
      → Option (ParseResult × Machine)
      → Option (Served L)
  after_parse go_on c l none = none
  after_parse go_on c l (some (ParseResult.incomplete, m)) =
      some (record { ending = incomplete; connection = store m c; limiter = l })
  after_parse go_on c l (some (ParseResult.error, m)) =
      some (record { ending = refused; connection = respond bad_request (store m c); limiter = l })
  after_parse go_on c l (some (ParseResult.success, m)) =
      answer go_on (store m c) (allow c.client_ip l)

  unfoldable pub serve : ℕ → Connection → L → Option (Served L)
  unfolding respond handled
  serve zero c l = some (record { ending = has_more; connection = c; limiter = l })
  serve (suc rounds) c l =
      let rest = after_parse (serve rounds) c l (parse (machine_of c)) in
      if is_empty c.read_buffer
      then some (record { ending = emptied; connection = c; limiter = l })
      else rest
