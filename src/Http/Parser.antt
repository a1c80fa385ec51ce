-- ===== src/Http/Parser.antt =====
-- `HttpRequestParser` (include/Http/HttpRequestParser.h, src/Http/HttpRequestParser.cpp). The read
-- buffer and the request are reference parameters of `parse`: with the parser's fields they make
-- up a `Machine`, and a round of the `while` loop is `step`.
pub mod Frame
pub mod Total
pub mod Resume
pub mod Pause
pub mod Suffix
pub mod Refuse
pub mod Feed
pub mod Bounds
pub mod Rounds
use c_http_1_1_server.Base.{
  ℕ, zero, suc, ◌+◌, ◌-◌, ◌*◌, ◌%◌, ◌^◌, Bool, true, false, not, ◌&&◌, ◌||◌, List, [], ◌∷◌, ◌++◌,
  Option, none, some, ltb, ◌==◌, if◌then◌else◌, length, take, drop, Bytes, bytes_eq, codes,
  contains, find_byte, is_empty, is_space,
}
use c_http_1_1_server.Protocol.Framer.{
  FrameStatus, Framed, extract_line, extract_bytes, max_http_body_size,
}
use c_http_1_1_server.Http.Headers
use c_http_1_1_server.Http.ChunkSize.{strip_extensions, bad_lead, at_nul, hex_size, chunk_size_of}
use c_http_1_1_server.Http.RequestLines.{
  string_to_method, is_unknown, fill_request_line, find_second_space, parse_request_line, trim_left,
  parse_header_line,
}
use c_http_1_1_server.Http.Numbers.{Parsed, strtoul_hex, word_mod}
use c_http_1_1_server.Http.Request
use c_http_1_1_server.Http.Request.{HttpMethod, HttpRequest}

pub data ParseResult : Type 0 where
  success incomplete error : ParseResult

pub data State : Type 0 where
  request_line headers body chunk_size chunk_data chunk_crlf trailers complete error : State

pub record HttpRequestParser : Type 0 where
  pub m_state : State
  pub m_chunk_remaining : ℕ

pub record Machine : Type 0 where
  pub parser : HttpRequestParser
  pub read_buffer : Bytes
  pub request : HttpRequest

abbrev pub fresh : HttpRequestParser
fresh = record { m_state = State.request_line; m_chunk_remaining = 0 }

unfoldable pub reset : HttpRequestParser → HttpRequestParser
reset p = record { m_state = State.request_line; m_chunk_remaining = 0 }

unfoldable pub is_complete : HttpRequestParser → Bool
is_complete p = elim p.m_state [ State.complete ↦ true | _ ↦ false ]

-- A round of the loop goes on, or returns from `parse`.
pub data Step : Type 0 where
  continue : Machine → Step
  return : ParseResult → Machine → Step

abbrev pub goto : State → Machine → Machine
goto s m = record m { parser = record m.parser { m_state = s } }

-- `m_state = State::Error; return ParseResult::Error;`.
abbrev pub fail : Machine → Step
fail m = return ParseResult.error (goto State.error m)

-- The size checks, and the next state.
unfoldable pub accept_size : ℕ → Machine → Step
accept_size size m =
    if ltb max_http_body_size size
    then fail m
    else if ltb max_http_body_size ((length m.request.body + size) % word_mod)
    then fail m
    else if size == 0
    then continue (goto State.trailers m)
    else continue
        (record m { parser = record { m_state = State.chunk_data; m_chunk_remaining = size } })

-- What each state does with a line that the framer has cut off; `m` has the shorter buffer.
unfoldable pub on_size_line : Bytes → Machine → Step
on_size_line line m = elim (chunk_size_of line) [ none ↦ fail m | some size ↦ accept_size size m ]

unfoldable pub on_chunk_end : Bytes → Machine → Step
on_chunk_end line m = if not (is_empty line) then fail m else continue (goto State.chunk_size m)

-- `break` leaves the loop in state `Complete`, and `parse` returns `Success`.
unfoldable pub on_trailer : Bytes → Machine → Step
on_trailer line m =
    if is_empty line then return ParseResult.success (goto State.complete m) else continue m

unfoldable pub on_request_line : Bytes → Machine → Step
on_request_line line m =
    let (accepted, r) = parse_request_line line m.request in
    let m' = record m { request = r } in
    if accepted then continue (goto State.headers m') else fail m'

-- `te.has_value() && te->find("chunked") != npos`.
unfoldable pub is_chunked : HttpRequest → Bool
is_chunked r = elim (Headers.get (codes "Transfer-Encoding") r.headers) [
  | some te ↦ contains (codes "chunked") te
  | none ↦ false
]

-- The state behind the empty line that ends the headers.
unfoldable pub after_headers : HttpRequest → State
unfolding is_chunked
after_headers r =
    if is_chunked r
    then State.chunk_size
    else if ltb 0 (Headers.get_content_length r.headers)
    then State.body
    else State.complete

unfoldable pub on_header : Bytes → Machine → Step
on_header line m =
    let (accepted, r) = parse_header_line line m.request in
    let m' = record m { request = r } in
    if is_empty line
    then continue (goto (after_headers m.request) m)
    else if accepted
    then continue m'
    else fail m'

-- A state that wants a line waits, fails, or goes on with the line; so does one that wants a block.
abbrev pub after_line : (Bytes → Machine → Step) → Machine → Framed → Step
after_line next m f =
    let m' = record m { read_buffer = f.read_buffer } in
    elim f.status [
      | FrameStatus.success ↦ next f.out m'
      | FrameStatus.incomplete ↦ return ParseResult.incomplete m'
      | _ ↦ fail m'
    ]

unfoldable pub with_line : (Bytes → Machine → Step) → Machine → Step
with_line next m = after_line next m (extract_line m.read_buffer [])

abbrev pub after_chunk : Machine → Framed → Step
after_chunk m f =
    let m' = record m { read_buffer = f.read_buffer } in
    elim f.status [
      | FrameStatus.success ↦ continue (
          goto State.chunk_crlf
            (record m' { request = record m.request { body = m.request.body ++ f.out } }))
      | FrameStatus.incomplete ↦ return ParseResult.incomplete m'
      | _ ↦ fail m'
    ]

unfoldable pub in_chunk_data : Machine → Step
in_chunk_data m = after_chunk m (extract_bytes m.read_buffer m.parser.m_chunk_remaining [])

-- `content_length - request.body.size()`, in `size_t`.
abbrev pub bytes_needed : HttpRequest → ℕ
bytes_needed r = (Headers.get_content_length r.headers + word_mod - length r.body) % word_mod

abbrev pub after_body : Machine → Framed → Step
after_body m f =
    let m' = record m {
      read_buffer = f.read_buffer;
      request = record m.request { body = f.out };
    } in
    elim f.status [
      | FrameStatus.success ↦ return ParseResult.success (goto State.complete m')
      | FrameStatus.incomplete ↦ return ParseResult.incomplete m'
      | _ ↦ fail m'
    ]

-- `extractBytes` writes into `request.body`.
unfoldable pub in_body : Machine → Step
in_body m = after_body m (extract_bytes m.read_buffer (bytes_needed m.request) m.request.body)

-- One round of the loop of `parse`, its condition included.
unfoldable pub step_in : State → Machine → Step
step_in State.complete m = return ParseResult.success m
step_in State.error m = return ParseResult.error m
step_in State.body m = in_body m
step_in State.chunk_size m = with_line on_size_line m
step_in State.chunk_data m = in_chunk_data m
step_in State.chunk_crlf m = with_line on_chunk_end m
step_in State.trailers m = with_line on_trailer m
step_in State.request_line m = with_line on_request_line m
step_in State.headers m = with_line on_header m

abbrev pub step : Machine → Step
step m = step_in m.parser.m_state m

-- The loop, on fuel: `none` if the fuel runs out.
unfoldable pub loop : ℕ → Machine → Option (ParseResult × Machine)
loop zero m = none
loop (suc fuel) m = elim (step m) [ continue m' ↦ loop fuel m' | return r m' ↦ some (r, m') ]

-- The fuel is more than the rounds that the buffered bytes allow.
unfoldable pub parse : Machine → Option (ParseResult × Machine)
unfolding loop step_in with_line in_chunk_data in_body on_size_line on_chunk_end on_trailer
    on_request_line on_header parse_request_line parse_header_line chunk_size_of accept_size
    after_headers
parse m = loop (2 * length m.read_buffer + 2) m
