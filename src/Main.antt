-- ===== src/Main.antt =====
-- The routes that `main` (main.cpp) registers; `main` itself stands in Main.Process.
pub mod Routes
pub mod Answers
pub mod Signals
pub mod Process
use c_http_1_1_server.Base.{ℕ, zero, suc, ◌+◌, ◌-◌, List, [], ◌∷◌, ◌++◌, length, Bytes, codes}
use c_http_1_1_server.Http.Numbers.{to_string}
use c_http_1_1_server.Http.Request.{HttpRequest}
use c_http_1_1_server.Http.Response
use c_http_1_1_server.Http.Response.{HttpResponse}
use c_http_1_1_server.Network.TcpServer
use c_http_1_1_server.Network.TcpServer.{TcpServer, server}

abbrev pub ok : HttpResponse
ok = Response.set_status 200 (codes "OK") Response.fresh

abbrev pub welcome : HttpRequest → HttpResponse
welcome req = Response.html (codes "<h1>Hello from C++ HTTP Server!</h1>") Response.fresh

abbrev pub health : HttpRequest → HttpResponse
health req = Response.json (codes "{\"status\":\"ok\",\"uptime\":\"healthy\"}") Response.fresh

abbrev pub echo : HttpRequest → HttpResponse
echo req = Response.set_body (codes "Echo: " ++ req.body) ok

abbrev pub update_of : Bytes → HttpResponse
update_of [] =
    Response.json (codes "{\"error\":\"empty body\"}")
      (Response.set_status 400 (codes "Bad Request") Response.fresh)
update_of (b ∷ bs) =
    Response.json
      (codes "{\"status\":\"updated\",\"received_bytes\":"
        ++ to_string (length (b ∷ bs))
        ++ codes "}")
      ok

abbrev pub update : HttpRequest → HttpResponse
update req = update_of req.body

abbrev pub remove_all : HttpRequest → HttpResponse
remove_all req = Response.set_status 204 (codes "No Content") Response.fresh

abbrev pub echo_large : HttpRequest → HttpResponse
echo_large req = Response.set_body req.body ok

abbrev pub zeros : ℕ → Bytes
zeros zero = []
zeros (suc n) = b'0' ∷ zeros n

-- `snprintf` with `%06d`, for a number.
unfoldable pub line : ℕ → Bytes
line i =
    let digits = to_string i in
    codes "line-" ++ zeros (6 - length digits) ++ digits ++ codes "-0123456789abcdef\n"

-- The lines from `i` on.
unfoldable pub lines : ℕ → ℕ → Bytes
unfolding line
lines zero i = []
lines (suc n) i = line i ++ lines n (i + 1)

abbrev pub line_count : ℕ
line_count = 4096

unfoldable pub large : HttpRequest → HttpResponse
unfolding lines
large req = Response.html (lines line_count 0) ok

abbrev pub echo_plain : HttpRequest → HttpResponse
echo_plain req =
    Response.set_body req.body (Response.set_header (codes "Content-Type") (codes "text/plain") ok)

-- The server before `start`.
unfoldable pub app : TcpServer
app = TcpServer.post (codes "/test/echo") echo_plain (
    TcpServer.get (codes "/test/large") large (
      TcpServer.post (codes "/api/echo/large") echo_large (
        TcpServer.del (codes "/api/resources") remove_all (
          TcpServer.put (codes "/api/resource") update (
            TcpServer.post (codes "/api/echo") echo (
              TcpServer.get (codes "/api/health") health
                (TcpServer.get (codes "/") welcome (server 8080))))))))
