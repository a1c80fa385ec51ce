-- ===== src/Tests/Reading.antt =====
-- What a client reads of the server's responses.
use mathlib.Core.List.Permᴰ
use c_http_1_1_server.Base.{
  ℕ, ◌≤◌, ◌≡◌, refl, ap, arith, true, false, length-append, List, [], ◌∷◌, ◌++◌, map, some, length,
  Bytes, codes, to_lower, if◌then◌else◌,
}
use c_http_1_1_server.Http.Headers
use c_http_1_1_server.Http.Request
use c_http_1_1_server.Http.Request.{HttpMethod, HttpRequest}
use c_http_1_1_server.Http.Response
use c_http_1_1_server.Http.Response.{HttpResponse}
use c_http_1_1_server.Http.Encoder.{encode}
use c_http_1_1_server.Http.Router.{route}
use c_http_1_1_server.Http.Client.{field, is_bodiless, read_response}
use c_http_1_1_server.Http.Client.Framed.{IsWire}
use c_http_1_1_server.Http.Client.Wire.{body_part, fields_sent, reply_read, read_response-encode}
use c_http_1_1_server.Http.Client.Answers.{IsAnswer, fresh-IsWire, html-IsWire, whole_reply}
use c_http_1_1_server.Main.{app}
use c_http_1_1_server.Main.Answers.{app-IsAnswer, app-AllAnswered}
use c_http_1_1_server.Network.Connection.{Connection, connect}
use c_http_1_1_server.Network.Worker.{Served, max_rounds, serve}
use c_http_1_1_server.Protocol.Framer.Refuse.{ShortLines}
use c_http_1_1_server.Network.Worker.Pipeline.{ready}
use c_http_1_1_server.Network.Worker.Conversation.{conversation, read_responses, responses}
use c_http_1_1_server.Network.Worker.Timeless.{seen}
use c_http_1_1_server.Network.Worker.Session.{all_bytes, deliver, session}
use c_http_1_1_server.Network.Worker.Session.Whole.{session-serve, session-conversation}
use c_http_1_1_server.Tests.Working.{always, plain_get, plain_IsMessage}

abbrev as_listed : List (Bytes × Bytes) → List (Bytes × Bytes)
as_listed m = m

abbrev page : HttpResponse
page = Response.html (codes "<p>") Response.fresh

page-IsWire : IsWire page
page-IsWire = html-IsWire (codes "<p>") (omega arith) fresh-IsWire

-- The answer to a HEAD request, with its body.
read_response-encode_example :
    let (bytes, after) = encode as_listed page false in
    let bare = is_bodiless true page.status_code in
    (read_response true (bytes ++ codes "HTTP")
      ≡ some (
        reply_read as_listed page true,
        if bare then body_part false after ++ codes "HTTP" else codes "HTTP",
      ))
    × ((name : Bytes)
        → field (to_lower name) (fields_sent as_listed page) ≡ Headers.get name after.headers)
read_response-encode_example =
    read_response-encode as_listed page page-IsWire (λ m. Permᴰ.refl m) true false (codes "HTTP")
      (λ e. refl)

abbrev asked : HttpRequest
asked = record Request.fresh { method = HttpMethod.post; path = codes "/api/echo" }

app-IsAnswer_example : IsAnswer (route asked app.router)
app-IsAnswer_example = app-IsAnswer asked (omega arith)

abbrev caller : Connection
caller = connect 0 7

conversation_example :
    let ms = plain_get ∷ plain_get ∷ [] in
    let rs = responses always app.router caller.client_ip ms 0 in
    (s : Served ℕ) × (more : Bytes) × (serve always as_listed app.router 5 max_rounds
        (ready ms caller)
        0
      ≡ some s)
    × (s.connection.write_buffer ≡ caller.write_buffer ++ more)
    × ((rest : Bytes)
        → read_responses (length rs) (more ++ rest) ≡ some (map (whole_reply as_listed) rs, rest))
conversation_example =
    conversation always as_listed app.router 5 (λ m. Permᴰ.refl m) (plain_get ∷ plain_get ∷ [])
      max_rounds caller 0 (omega arith) (plain_IsMessage, (plain_IsMessage, tt))
      (app-AllAnswered (plain_get ∷ plain_get ∷ []) (plain_IsMessage, (plain_IsMessage, tt))
        (refl, (refl, tt)))

-- A request in two pieces, and the loop's first call on nothing.
abbrev pieces : List (ℕ × Bytes)
pieces = (6, codes "GE") ∷ (7, codes "T / HTTP/1.1\r\n\r\n") ∷ []

-- Nothing so short has a stretch of more than 8 KB.
short_bytes : (bytes : Bytes) → length bytes ≤ 8192 → ShortLines bytes
short_bytes bytes fits before part after e lacks =
    omega (arith, ap length e, length-append before (part ++ after), length-append part after)

session-serve_example :
    (s : Served ℕ) × (session always as_listed app.router 5 pieces caller 0 ≡ some s)
    × (k : ℕ) × ((later rounds : ℕ)
        → k ≤ rounds
        → seen
            (serve always as_listed app.router later rounds (deliver (all_bytes pieces) caller) 0)
          ≡ some (s.ending, s.connection.write_buffer, s.limiter))
unfolding connect
session-serve_example =
    session-serve always as_listed app.router pieces 5 caller 0 (refl, (refl, tt))
      (short_bytes (all_bytes pieces) (omega arith))

session-conversation_example :
    let ms = plain_get ∷ [] in
    let rs = responses always app.router caller.client_ip ms 0 in
    (s : Served ℕ) × (more : Bytes) × (session always as_listed app.router 5 pieces
        (ready [] caller)
        0
      ≡ some s)
    × (s.connection.write_buffer ≡ caller.write_buffer ++ more)
    × ((rest : Bytes)
        → read_responses (length rs) (more ++ rest) ≡ some (map (whole_reply as_listed) rs, rest))
session-conversation_example =
    session-conversation always as_listed app.router (λ m. Permᴰ.refl m) (plain_get ∷ []) pieces 5
      caller 0 (plain_IsMessage, tt)
      (app-AllAnswered (plain_get ∷ []) (plain_IsMessage, tt) (refl, tt)) (refl, (refl, tt)) refl
      (short_bytes (all_bytes pieces) (omega arith))
