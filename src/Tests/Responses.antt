-- ===== src/Tests/Responses.antt =====
-- Headers, the router and the response encoder on small inputs.
use c_http_1_1_server.Http.Response.Close.{finalize_agrees}
use c_http_1_1_server.Base.{
  ℕ, zero, suc, ◌≡◌, ◌≢◌, ◌⊎◌, refl, true, false, not, [], ◌∷◌, ap, arith, if◌then◌else◌, some,
  Bytes, codes, to_lower, bytes_eq, ◌&&◌,
}
use c_http_1_1_server.Base.StringMap.{lookup, insert, erase}
use c_http_1_1_server.Http.Headers
use c_http_1_1_server.Http.Headers.{HttpHeaders}
use c_http_1_1_server.Http.Headers.Laws
use c_http_1_1_server.Http.Headers.Laws.{set-IsValid, empty-IsValid, get-set, del_capital}
use c_http_1_1_server.Http.Numbers.{to_string}
use c_http_1_1_server.Http.Request
use c_http_1_1_server.Http.Request.{HttpMethod, HttpRequest}
use c_http_1_1_server.Http.Response
use c_http_1_1_server.Http.Response.{HttpResponse, finalize_for_connection, already_close}
use c_http_1_1_server.Http.Encoder.{encode, set_response_header}
use c_http_1_1_server.Http.Encoder.Framing.{framing_conflict}
use c_http_1_1_server.Http.Router
use c_http_1_1_server.Http.Router.{HttpRouter, HttpHandler, add_route, route}
use c_http_1_1_server.Http.Router.Laws.{route-add_route}

abbrev sized : HttpHeaders
sized = Headers.set (codes "Content-Length") (codes "7") Headers.empty

sized-IsValid : Laws.IsValid sized
sized-IsValid = set-IsValid (codes "Content-Length") (codes "7") empty-IsValid

first_byte : Bytes → ℕ
first_byte [] = 0
first_byte (c ∷ cs) = c

capital : to_lower (codes "Content-Length") ≢ codes "Content-Length"
unfolding to_lower first_byte
capital e = omega (arith, ap first_byte e)

del_capital_example : Headers.del (codes "Content-Length") sized ≡ sized
del_capital_example = del_capital (codes "Content-Length") sized-IsValid capital

encoded :
    (encode (λ m. m) (Response.html (codes "<p>") Response.fresh) false).0
    ≡ codes
        "HTTP/1.1 200 OK\r\ncontent-type: text/html; charset=utf-8\r\ncontent-length: 3\r\n\r\n<p>"
unfolding encode Response.html Headers.set Headers.del lookup insert erase to_lower bytes_eq
    to_string
encoded = refl

abbrev letters : ℕ → Bytes
letters zero = []
letters (suc n) = b'a' ∷ letters n

abbrev large : HttpResponse
large = record Response.fresh { headers = sized; body = letters 65537 }

framing_conflict_example :
    (Headers.get (codes "Transfer-Encoding") (set_response_header large).headers
      ≡ some (codes "chunked"))
    × (Headers.get (codes "Content-Length") (set_response_header large).headers ≡ some (codes "7"))
unfolding Headers.get Headers.set to_lower lookup insert bytes_eq
framing_conflict_example = framing_conflict large (codes "7") sized-IsValid refl (omega arith)

abbrev hello : HttpHandler
hello r = Response.html (codes "hi") Response.fresh

abbrev asked : HttpRequest
asked = record Request.fresh { method = HttpMethod.get; path = codes "/" }

route-add_route_example :
    ((HttpMethod.get ≡ asked.method)
      × (codes "/" ≡ asked.path)
      × (route asked (add_route HttpMethod.get (codes "/") hello Router.empty) ≡ hello asked))
    ⊎ (¬ ((HttpMethod.get ≡ asked.method) × (codes "/" ≡ asked.path))
        × (route asked (add_route HttpMethod.get (codes "/") hello Router.empty)
            ≡ route asked Router.empty))
route-add_route_example = route-add_route asked HttpMethod.get (codes "/") hello Router.empty

abbrev refusing : HttpResponse
refusing = Response.set_header (codes "connection") (codes "Close") Response.fresh

finalize_agrees_example :
    let after = finalize_for_connection true false refusing in
    (after.close_after_send ≡ not (true && not (already_close refusing)))
    × (Headers.get (codes "Connection") after.headers
        ≡ some (if after.close_after_send then codes "close" else codes "keep-alive"))
    × (already_close after ≡ after.close_after_send)
    × (after.body ≡ refusing.body)
    × (after.status_code ≡ refusing.status_code)
finalize_agrees_example = finalize_agrees true false refusing
