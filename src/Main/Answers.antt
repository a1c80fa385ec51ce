-- ===== src/Main/Answers.antt =====
-- Each response of the server's handlers is one that a client can read.
use c_http_1_1_server.Network.Worker.{is_head}
use c_http_1_1_server.Network.Worker.Pipeline.{Message, AllMessages, requested}
use c_http_1_1_server.Network.Worker.Conversation.{AllAnswered}
use c_http_1_1_server.Base.{
  ℕ, zero, suc, ◌+◌, ◌-◌, ◌*◌, ◌≤◌, ◌<◌, ◌≡◌, refl, sym, subst, arith, false, List, [], ◌∷◌, ◌++◌,
  either_way, length, length-append, Bytes, bytes_eq, codes,
}
use c_http_1_1_server.Http.Numbers.{to_string, word_mod}
use c_http_1_1_server.Http.Numbers.RoundTrip.{length-to_string}
use c_http_1_1_server.Http.Request.{HttpMethod, HttpRequest}
use c_http_1_1_server.Http.Response
use c_http_1_1_server.Http.Response.{HttpResponse}
use c_http_1_1_server.Http.Router.{route, not_found_res}
use c_http_1_1_server.Http.Client.{is_bodiless}
use c_http_1_1_server.Http.Client.Framed.{IsWire}
use c_http_1_1_server.Http.Client.Answers.{
  IsAnswer, fresh-IsWire, set_status-IsWire, set_body-IsWire, set_content_type-IsWire, html-IsWire,
  json-IsWire,
}
use c_http_1_1_server.Protocol.Framer.{max_http_body_size}
use c_http_1_1_server.Main.{
  ok, welcome, health, echo, update_of, remove_all, echo_large, large, echo_plain, app, line, lines,
  zeros, line_count, line_count,
}
use c_http_1_1_server.Main.Routes.{answer_by_method, route-app}

ok-IsWire : IsWire ok
ok-IsWire = set_status-IsWire 200 (codes "OK") (omega arith) (ground arith) fresh-IsWire

-- A body behind a status that lets it be read.
answered : {r : HttpResponse} → IsWire r → is_bodiless false r.status_code ≡ false → IsAnswer r
answered w e = record { wire = w; full = λ bare. ground arith }

not_found_res-IsAnswer : IsAnswer not_found_res
unfolding not_found_res Response.html Response.set_header Response.set_status Response.set_body
not_found_res-IsAnswer =
    answered
      (html-IsWire
        (codes "<h1>404 Not Found</h1><p>The requested URL was not found on this server.</p>")
        (omega arith)
        (set_status-IsWire 404 (codes "Not Found") (omega arith) (ground arith) fresh-IsWire))
      refl

length-zeros : (n : ℕ) → length (zeros n) ≡ n
length-zeros zero = refl
length-zeros (suc n) = omega (arith, length-zeros n)

length-line : (i : ℕ) → length (line i) ≤ i + 64
unfolding line
length-line i =
    let digits = to_string i in
    omega (
      arith,
      length-to_string i,
      length-zeros (6 - length digits),
      length-append (zeros (6 - length digits)) digits,
      length-append (zeros (6 - length digits) ++ digits) (codes "-0123456789abcdef\n"),
    )

length-lines : (n i bound : ℕ) → n + i ≤ bound → length (lines n i) ≤ n * (bound + 64)
unfolding lines
length-lines zero i bound h = omega arith
length-lines (suc n) i bound h = grind (
  arith,
  length-line i,
  length-lines n (i + 1) bound (omega arith),
  length-append (line i) (lines n (i + 1)),
)

-- The unfolded setters leave the status that the handler chose.
by_html :
    (text : Bytes) (r : HttpResponse)
    → length text < word_mod
    → IsWire r
    → is_bodiless false r.status_code ≡ false
    → IsAnswer (Response.html text r)
unfolding Response.html Response.set_header Response.set_body
by_html text r h w e = answered (html-IsWire text h w) e

by_json :
    (text : Bytes) (r : HttpResponse)
    → length text < word_mod
    → IsWire r
    → is_bodiless false r.status_code ≡ false
    → IsAnswer (Response.json text r)
unfolding Response.json Response.set_header Response.set_body
by_json text r h w e = answered (json-IsWire text h w) e

by_body :
    (text : Bytes) (r : HttpResponse)
    → length text < word_mod
    → IsWire r
    → is_bodiless false r.status_code ≡ false
    → IsAnswer (Response.set_body text r)
unfolding Response.set_body
by_body text r h w e = answered (set_body-IsWire text h w) e

module _ (r : HttpRequest) where
  welcome-IsAnswer : IsAnswer (welcome r)
  welcome-IsAnswer = by_html _ Response.fresh (omega arith) fresh-IsWire refl

  health-IsAnswer : IsAnswer (health r)
  health-IsAnswer = by_json _ Response.fresh (omega arith) fresh-IsWire refl

  remove_all-IsAnswer : IsAnswer (remove_all r)
  unfolding Response.set_status
  remove_all-IsAnswer = record {
    wire = set_status-IsWire 204 (codes "No Content") (omega arith) (ground arith) fresh-IsWire;
    full = λ _. refl;
  }

  large-IsAnswer : IsAnswer (large r)
  unfolding large Response.set_status
  large-IsAnswer =
      by_html _ ok (omega (arith, length-lines line_count 0 line_count (omega arith))) ok-IsWire
        refl

module _ (r : HttpRequest) (fits : length r.body ≤ max_http_body_size) where
  echo-IsAnswer : IsAnswer (echo r)
  unfolding Response.set_status
  echo-IsAnswer = by_body _ ok (omega arith) ok-IsWire refl

  echo_large-IsAnswer : IsAnswer (echo_large r)
  unfolding Response.set_status
  echo_large-IsAnswer = by_body r.body ok (omega arith) ok-IsWire refl

  echo_plain-IsAnswer : IsAnswer (echo_plain r)
  unfolding Response.set_status Response.set_header
  echo_plain-IsAnswer =
      by_body r.body (Response.set_header (codes "Content-Type") (codes "text/plain") ok)
        (omega arith) (set_content_type-IsWire (codes "text/plain") (ground arith) refl ok-IsWire)
        refl

  update_of-IsAnswer : (body : Bytes) → length body ≤ max_http_body_size → IsAnswer (update_of body)
  unfolding Response.set_status
  update_of-IsAnswer [] h =
      by_json _ (Response.set_status 400 (codes "Bad Request") Response.fresh) (omega arith)
        (set_status-IsWire 400 (codes "Bad Request") (omega arith) (ground arith) fresh-IsWire) refl
  update_of-IsAnswer (b ∷ bs) h =
      by_json _ ok
        (omega (
          arith,
          length-to_string (length (b ∷ bs)),
          length-append (to_string (length (b ∷ bs))) (codes "}"),
        ))
        ok-IsWire refl

  by_path : (m : HttpMethod) (path : Bytes) → IsAnswer (answer_by_method m path r)
  by_path HttpMethod.get path =
      either_way IsAnswer (bytes_eq (codes "/") path) (welcome-IsAnswer r) (
        either_way IsAnswer (bytes_eq (codes "/api/health") path) (health-IsAnswer r) (
          either_way IsAnswer (bytes_eq (codes "/test/large") path) (large-IsAnswer r)
            not_found_res-IsAnswer))
  by_path HttpMethod.post path =
      either_way IsAnswer (bytes_eq (codes "/api/echo") path) echo-IsAnswer (
        either_way IsAnswer (bytes_eq (codes "/api/echo/large") path) echo_large-IsAnswer (
          either_way IsAnswer (bytes_eq (codes "/test/echo") path) echo_plain-IsAnswer
            not_found_res-IsAnswer))
  by_path HttpMethod.put path =
      either_way IsAnswer (bytes_eq (codes "/api/resource") path) (update_of-IsAnswer r.body fits)
        not_found_res-IsAnswer
  by_path HttpMethod.delete path =
      either_way IsAnswer (bytes_eq (codes "/api/resources") path) (remove_all-IsAnswer r)
        not_found_res-IsAnswer
  by_path HttpMethod.head path = not_found_res-IsAnswer
  by_path HttpMethod.options path = not_found_res-IsAnswer
  by_path HttpMethod.unknown path = not_found_res-IsAnswer

  -- The server's response to a request whose body is within the limit is one that a client can read.
  pub app-IsAnswer : IsAnswer (route r app.router)
  app-IsAnswer = subst IsAnswer (sym (route-app r)) (by_path r.method r.path)

-- Requests other than HEAD.
abbrev pub AllBodied : List Message → Type 0
AllBodied [] = Unit {0}
AllBodied (m ∷ ms) = (is_head m.head.method ≡ false) × AllBodied ms

pub app-AllAnswered :
    (ms : List Message) → AllMessages ms → AllBodied ms → AllAnswered app.router ms
app-AllAnswered [] v n = tt
app-AllAnswered (m ∷ ms) (v, vs) (n, ns) =
    (record { no_head = n; readable = app-IsAnswer (requested m) v.fits }, app-AllAnswered ms vs ns)
