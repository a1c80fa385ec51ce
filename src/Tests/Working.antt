-- ===== src/Tests/Working.antt =====
-- The parse loop of a worker on two requests that arrive together.
use c_http_1_1_server.Http.Parser.{is_chunked}
use c_http_1_1_server.Base.StringMap.{lookup}
use c_http_1_1_server.Http.Message.{Head, IsPrintable, request_text}
use c_http_1_1_server.Network.Worker.Pipeline.{Message, IsMessage}
use c_http_1_1_server.Base.{
  ℕ, ◌≡◌, Bool, true, [], ◌∷◌, ◌++◌, some, Bytes, codes, refl, arith, false, lacks-Lacks, to_lower,
  contains, bytes_eq,
}
use c_http_1_1_server.Http.Response
use c_http_1_1_server.Http.Router
use c_http_1_1_server.Http.Headers
use c_http_1_1_server.Http.Router.{HttpRouter, add_route}
use c_http_1_1_server.Http.Request.{HttpMethod}
use c_http_1_1_server.Network.Connection.{
  Connection, connect, append_read_data, append_unsent_data, flush, accepted,
}
use c_http_1_1_server.Network.WriteTask.{client_write}
use c_http_1_1_server.Network.WriteTask.Drained.{WriteOutcome, client_write-WriteOutcome}
use c_http_1_1_server.Network.Worker.{Served, machine_of, max_rounds, serve}
use c_http_1_1_server.Network.Worker.Promised.{encoded, found, owed}
use c_http_1_1_server.Network.Worker.Answers.{serve-responses}
use c_http_1_1_server.Network.ReadTask.{Action, bytes, client_read}
use c_http_1_1_server.Network.ReadTask.Watch.{IsWatched, client_read-IsWatched}

abbrev hello : HttpRouter
hello =
    add_route HttpMethod.get (codes "/") (λ r. Response.html (codes "hi") Response.fresh)
      Router.empty

abbrev pub always : Bytes → ℕ → Bool × ℕ
always ip n = (true, n)

abbrev greeting : Connection
greeting = append_unsent_data 5 (codes "hello") (connect 0 7)

abbrev pipelined : Connection
pipelined =
    append_read_data 5
      (codes "GET / HTTP/1.1\r\nHost: a\r\n\r\n" ++ codes "GET /b HTTP/1.1\r\nHost: a\r\n\r\n")
      (connect 0 7)

serve-responses_example :
    (s : Served ℕ) × (serve always (λ m. m) hello 5 max_rounds pipelined 0 ≡ some s)
    × (s.connection.write_buffer
        ≡ pipelined.write_buffer
          ++ encoded
              (λ m. m)
              (owed always hello pipelined.client_ip (found max_rounds (machine_of pipelined)) 0))
    × (s.connection.fd ≡ pipelined.fd)
    × (s.connection.client_ip ≡ pipelined.client_ip)
serve-responses_example = serve-responses always (λ m. m) hello 5 max_rounds pipelined 0

client_read-IsWatched_example :
    (a : Action × Connection) × (client_read always
        (λ m. m)
        hello
        5
        (bytes (codes "GET / HTTP/1.1\r\n\r\n") ∷ [])
        (accepted 9 ∷ [])
        (connect 0 7)
        0
      ≡ some a)
    × IsWatched a
client_read-IsWatched_example =
    client_read-IsWatched always (λ m. m) hello 5 (bytes (codes "GET / HTTP/1.1\r\n\r\n") ∷ [])
      (accepted 9 ∷ []) (connect 0 7) 0

abbrev get_head : Head
get_head = record {
  method = HttpMethod.get;
  path = codes "/";
  version = codes "HTTP/1.1";
  fields = [];
}

get_IsPrintable : IsPrintable get_head
get_IsPrintable = record {
  known = λ e. cc;
  path_ne_nil = λ e. cc;
  no_space = lacks-Lacks b' ' get_head.path refl;
  no_cr = lacks-Lacks b'\r' (request_text get_head) refl;
  fits = omega arith;
  fields = tt;
}

abbrev pub plain_get : Message
plain_get = record { head = get_head; body = []; in_chunks = false }

pub plain_IsMessage : IsMessage plain_get
unfolding is_chunked Headers.get Headers.get_content_length lookup to_lower contains bytes_eq
plain_IsMessage = record {
  printable = get_IsPrintable;
  framing = refl;
  announced = λ e. refl;
  fits = omega arith;
}

client_write-WriteOutcome_example :
    WriteOutcome
      (flush (accepted 9 ∷ []) greeting).0.has_error
      false
      (client_write false (accepted 9 ∷ []) greeting)
client_write-WriteOutcome_example = client_write-WriteOutcome false (accepted 9 ∷ []) greeting
