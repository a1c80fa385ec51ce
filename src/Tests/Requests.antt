-- ===== src/Tests/Requests.antt =====
-- The request parser (src/Http/HttpRequestParser.cpp) on small inputs.
use c_http_1_1_server.Base.{
  ℕ, ◌≡◌, refl, true, List, [], ◌∷◌, ◌++◌, arith, some, Bytes, codes, lacks, lacks-Lacks, length,
  ◌≤◌, to_lower, bytes_eq, contains, find_byte,
}
use c_http_1_1_server.Base.StringMap.{lookup, insert}
use c_http_1_1_server.Protocol.Framer.{max_chunk_body_size, extract_line}
use c_http_1_1_server.Http.Numbers.{to_hex, stoull}
use c_http_1_1_server.Http.Headers
use c_http_1_1_server.Http.Request
use c_http_1_1_server.Http.Request.{HttpMethod, HttpRequest}
use c_http_1_1_server.Http.Parser
use c_http_1_1_server.Http.Parser.{State, Machine, ParseResult, is_chunked, parse}
use c_http_1_1_server.Http.RequestLines.{string_to_method}
use c_http_1_1_server.Http.Parser.Total.{parse_total}
use c_http_1_1_server.Http.Parser.Resume.{append}
use c_http_1_1_server.Http.Parser.Feed.{Fed, feed, feed-parse, concat}
use c_http_1_1_server.Http.Parser.Bounds.{IsBounded, parse-IsBounded}
use c_http_1_1_server.Http.Encoder.{chunked_body}
use c_http_1_1_server.Http.ChunkedBody.{parse-chunked_body}
use c_http_1_1_server.Http.Message.{
  Head, request_text, field_text, IsTrimmed, IsField, print_head, IsPrintable,
}
use c_http_1_1_server.Http.Message.Whole.{head_request, parse-print_head, parse-print_head-chunked}

abbrev start : Bytes → Machine
start buf = record { parser = Parser.fresh; read_buffer = buf; request = Request.fresh }

abbrev post_head : Head
post_head = record {
  method = HttpMethod.post;
  path = codes "/api/echo";
  version = codes "HTTP/1.1";
  fields = (codes "Host", codes "a") ∷ (codes "Content-Length", codes "5") ∷ [];
}

abbrev chunked_head : Head
chunked_head = record post_head { fields = (codes "Transfer-Encoding", codes "chunked") ∷ [] }

post_text :
    print_head post_head ≡ codes "POST /api/echo HTTP/1.1\r\nHost: a\r\nContent-Length: 5\r\n\r\n"
post_text = refl

chunked_text : chunked_body (codes "hello") ≡ codes "5\r\nhello\r\n0\r\n\r\n"
unfolding chunked_body to_hex
chunked_text = refl

sample-IsField :
    (k v : Bytes)
    → lacks b'\r' (field_text k v) ≡ true
    → lacks b':' k ≡ true
    → IsTrimmed v
    → length (field_text k v) ≤ max_chunk_body_size
    → IsField k v
sample-IsField k v cr colon trimmed fits = record {
  no_cr = lacks-Lacks b'\r' (field_text k v) cr;
  no_colon = lacks-Lacks b':' k colon;
  trimmed = trimmed;
  fits = fits;
}

parse_total_example :
    (r : ParseResult) × (m' : Machine) × (parse (start (codes "GET / HTTP/1.1\r\n")) ≡ some (r, m'))
parse_total_example = parse_total (start (codes "GET / HTTP/1.1\r\n"))

post_IsPrintable : IsPrintable post_head
post_IsPrintable = record {
  known = λ e. cc;
  path_ne_nil = λ e. cc;
  no_space = lacks-Lacks b' ' post_head.path refl;
  no_cr = lacks-Lacks b'\r' (request_text post_head) refl;
  fits = omega arith;
  fields = (
    sample-IsField (codes "Host") (codes "a") refl refl refl (omega arith),
    (sample-IsField (codes "Content-Length") (codes "5") refl refl refl (omega arith), tt),
  );
}

chunked_IsPrintable : IsPrintable chunked_head
chunked_IsPrintable = record {
  known = λ e. cc;
  path_ne_nil = λ e. cc;
  no_space = lacks-Lacks b' ' chunked_head.path refl;
  no_cr = lacks-Lacks b'\r' (request_text chunked_head) refl;
  fits = omega arith;
  fields = (
    sample-IsField (codes "Transfer-Encoding") (codes "chunked") refl refl refl (omega arith),
    tt,
  );
}

parse-print_head_example :
    parse (start (print_head post_head ++ (codes "hello" ++ codes "GET")))
    ≡ some (
      ParseResult.success,
      record {
        parser = record { m_state = State.complete; m_chunk_remaining = 0 };
        read_buffer = codes "GET";
        request = record (head_request post_head) { body = codes "hello" };
      },
    )
unfolding is_chunked Headers.get Headers.set Headers.get_content_length lookup insert to_lower
    bytes_eq contains stoull
parse-print_head_example =
    parse-print_head post_head (codes "hello") (codes "GET") post_IsPrintable refl refl
      (omega arith)

parse-print_head-chunked_example :
    (k : ℕ) × (parse
        (start (print_head chunked_head ++ (chunked_body (codes "hello") ++ codes "GET")))
      ≡ some (
        ParseResult.success,
        record {
          parser = record { m_state = State.complete; m_chunk_remaining = k };
          read_buffer = codes "GET";
          request = record (head_request chunked_head) { body = codes "hello" };
        },
      ))
unfolding is_chunked Headers.get Headers.set lookup insert to_lower bytes_eq contains
parse-print_head-chunked_example =
    parse-print_head-chunked chunked_head (codes "hello") (codes "GET") chunked_IsPrintable refl
      (omega arith)

parse-chunked_body_example :
    (k' : ℕ) × (parse (record {
      parser = record { m_state = State.chunk_size; m_chunk_remaining = 0 };
      read_buffer = chunked_body (codes "hello") ++ codes "GET";
      request = Request.fresh;
    })
      ≡ some (
        ParseResult.success,
        record {
          parser = record { m_state = State.complete; m_chunk_remaining = k' };
          read_buffer = codes "GET";
          request = record Request.fresh { body = codes "hello" };
        },
      ))
parse-chunked_body_example =
    parse-chunked_body 0 (codes "hello") (codes "GET") Request.fresh (omega arith)

-- One byte of the request line, then the rest in two pieces, the last with a part of the next request.
abbrev pieces : List Bytes
pieces = codes "ET / HTTP/1.1\r" ∷ codes "\n\r\nGET" ∷ codes " /next" ∷ []

abbrev fed : Fed
fed = record {
  result = ParseResult.success;
  machine = record {
    parser = record { m_state = State.complete; m_chunk_remaining = 0 };
    read_buffer = codes "GET";
    request = record Request.fresh {
      method = HttpMethod.get;
      path = codes "/";
      version = codes "HTTP/1.1";
    };
  };
  unread = codes " /next" ∷ [];
}

feed-pieces : feed (start (codes "G")) pieces ≡ some fed
unfolding feed extract_line find_byte string_to_method bytes_eq Headers.get
    Headers.get_content_length to_lower lookup
feed-pieces = refl

feed-parse_example :
    parse (append (start (codes "G")) (concat pieces))
    ≡ some (fed.result, append fed.machine (concat fed.unread))
feed-parse_example = feed-parse pieces (start (codes "G")) fed feed-pieces (λ e. cc)

parse-IsBounded_example : IsBounded fed.machine
unfolding feed extract_line find_byte string_to_method bytes_eq Headers.get
    Headers.get_content_length to_lower lookup
parse-IsBounded_example =
    parse-IsBounded (start (codes "GET / HTTP/1.1\r\n\r\nGET")) fed.machine ParseResult.success
      (omega arith) refl
