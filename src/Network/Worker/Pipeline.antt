-- ===== src/Network/Worker/Pipeline.antt =====
-- Requests that a client sends one behind the other, and what the parser finds of them.
use c_http_1_1_server.Base.{
  ℕ, zero, suc, ◌≤◌, ◌≡◌, refl, ap, ◌∙◌, arith, Bool, false, List, [], ◌∷◌, ◌++◌, map, some, length,
  if◌then◌else◌, Bytes, is_empty, crlf, Bool-cases, inl, inr,
}
use c_http_1_1_server.Protocol.Framer.{max_http_body_size}
use c_http_1_1_server.Http.Headers
use c_http_1_1_server.Http.Request
use c_http_1_1_server.Http.Request.{HttpRequest}
use c_http_1_1_server.Http.Parser
use c_http_1_1_server.Http.Parser.{
  State, HttpRequestParser, Machine, ParseResult, parse, is_chunked,
}
use c_http_1_1_server.Http.Encoder.{chunked_body}
use c_http_1_1_server.Http.Message.{Head, method_name, print_fields, print_head, IsPrintable}
use c_http_1_1_server.Http.Message.Whole.{head_request, parse-print_head, parse-print_head-chunked}
use c_http_1_1_server.Network.Connection.{Connection}
use c_http_1_1_server.Network.Worker.{machine_of}
use c_http_1_1_server.Network.Worker.Promised.{request, found_first, found}

-- A request as a client sends it: its head, its body, and whether the body goes in chunks.
pub record Message : Type 0 where
  pub head : Head
  pub body : Bytes
  pub in_chunks : Bool

abbrev pub payload : Message → Bytes
payload m = if m.in_chunks then chunked_body m.body else m.body

-- The bytes of some requests, one behind the other.
abbrev pub stream : List Message → Bytes
stream [] = []
stream (m ∷ ms) = print_head m.head ++ (payload m ++ stream ms)

pub record IsMessage (m : Message) : Type 0 where
  pub printable : IsPrintable m.head
  pub framing : is_chunked (head_request m.head) ≡ m.in_chunks
  pub announced :
      m.in_chunks ≡ false → Headers.get_content_length (head_request m.head).headers ≡ length m.body
  pub fits : length m.body ≤ max_http_body_size

abbrev pub AllMessages : List Message → Type 0
AllMessages [] = Unit {0}
AllMessages (m ∷ ms) = IsMessage m × AllMessages ms

-- The request that stands for a message.
abbrev pub requested : Message → HttpRequest
requested m = record (head_request m.head) { body = m.body }

-- A connection on which some requests wait, and nothing is begun.
abbrev pub ready : List Message → Connection → Connection
ready ms c = record c { parser = Parser.fresh; request = Request.fresh; read_buffer = stream ms }

-- The machine that has read one request.
abbrev after_message : ℕ → Message → List Message → Machine
after_message k m ms = record {
  parser = record { m_state = State.complete; m_chunk_remaining = k };
  read_buffer = stream ms;
  request = requested m;
}

-- The machine of such a connection, by how the first body is sent.
abbrev before_message : Message → List Message → Bool → Machine
before_message m ms in_chunks = record {
  parser = Parser.fresh;
  read_buffer =
      print_head m.head ++ ((if in_chunks then chunked_body m.body else m.body) ++ stream ms);
  request = Request.fresh;
}

parse-stream :
    (m : Message) (ms : List Message) (c : Connection)
    → IsMessage m
    → (k : ℕ) × (parse (machine_of (ready (m ∷ ms) c))
        ≡ some (ParseResult.success, after_message k m ms))
parse-stream m ms c v = elim (Bool-cases m.in_chunks) [
  | inl chunks ↦
      let (k, read) =
        parse-print_head-chunked m.head m.body (stream ms) v.printable (v.framing ∙ chunks)
          v.fits in
      (k, ap (λ b. parse (before_message m ms b)) chunks ∙ read)
  | inr plain ↦ (
    0,
    ap (λ b. parse (before_message m ms b)) plain
        ∙ parse-print_head m.head m.body (stream ms) v.printable (v.framing ∙ plain)
            (v.announced plain) v.fits,
  )
]

not_empty : (xs ys zs ws : Bytes) (c : ℕ) → is_empty (((xs ++ c ∷ ys) ++ zs) ++ ws) ≡ false
not_empty [] ys zs ws c = refl
not_empty (x ∷ xs) ys zs ws c = refl

stream_not_empty : (m : Message) (ms : List Message) → is_empty (stream (m ∷ ms)) ≡ false
stream_not_empty m ms =
    not_empty (method_name m.head.method) (m.head.path ++ (b' ' ∷ m.head.version))
      (crlf ++ print_fields m.head.fields) (payload m ++ stream ms) b' '

-- The parser finds just these requests, in as many calls as there are requests or more.
pub found-stream :
    (ms : List Message) (rounds : ℕ) (c : Connection)
    → length ms ≤ rounds
    → AllMessages ms
    → found rounds (machine_of (ready ms c)) ≡ map (λ m. request (requested m)) ms
unfolding found Parser.reset Request.reset
found-stream [] zero c fits v = refl
found-stream [] (suc rounds) c fits v = refl
found-stream (m ∷ ms) zero c fits v = absurd (omega arith)
found-stream (m ∷ ms) (suc rounds) c fits (first, others) =
    let (k, read) = parse-stream m ms c first in
    rw (stream_not_empty m ms) (
      ap (found_first (found rounds)) read
      ∙ ap (◌∷◌ (request (requested m))) (found-stream ms rounds c (omega arith) others))
