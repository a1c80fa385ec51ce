-- ===== src/Main/Routes.antt =====
-- What the server answers to each request.
use c_http_1_1_server.Base.{
  ◌≡◌, refl, ◌∙◌, Bool, true, false, if◌then◌else◌, Bytes, bytes_eq, codes, Option, none, some,
}
use c_http_1_1_server.Base.StringMap.{lookup, insert}
use c_http_1_1_server.Http.Request.{HttpMethod, HttpRequest}
use c_http_1_1_server.Http.Response.{HttpResponse}
use c_http_1_1_server.Http.Router
use c_http_1_1_server.Http.Router.{HttpHandler, route, add_route, make_route_key, not_found_res}
use c_http_1_1_server.Network.TcpServer
use c_http_1_1_server.Main.{
  welcome, health, echo, update, remove_all, echo_large, large, echo_plain, app,
}

-- The table of the routes, by method and path.
abbrev pub answer_by_method : HttpMethod → Bytes → HttpRequest → HttpResponse
answer_by_method HttpMethod.get path r =
    if bytes_eq (codes "/") path
    then welcome r
    else if bytes_eq (codes "/api/health") path
    then health r
    else if bytes_eq (codes "/test/large") path
    then large r
    else not_found_res
answer_by_method HttpMethod.post path r =
    if bytes_eq (codes "/api/echo") path
    then echo r
    else if bytes_eq (codes "/api/echo/large") path
    then echo_large r
    else if bytes_eq (codes "/test/echo") path
    then echo_plain r
    else not_found_res
answer_by_method HttpMethod.put path r =
    if bytes_eq (codes "/api/resource") path then update r else not_found_res
answer_by_method HttpMethod.delete path r =
    if bytes_eq (codes "/api/resources") path then remove_all r else not_found_res
answer_by_method HttpMethod.head path r = not_found_res
answer_by_method HttpMethod.options path r = not_found_res
answer_by_method HttpMethod.unknown path r = not_found_res

abbrev chosen : Option HttpHandler → HttpRequest → HttpResponse
chosen none r = not_found_res
chosen (some handler) r = handler r

chosen-elim :
    (o : Option HttpHandler) (r : HttpRequest)
    → elim o [ some handler ↦ handler r | none ↦ not_found_res ] ≡ chosen o r
chosen-elim none r = refl
chosen-elim (some handler) r = refl

chosen-one :
    (b : Bool) (h : HttpHandler) (r : HttpRequest)
    → chosen (if b then some h else none) r ≡ (if b then h r else not_found_res)
chosen-one true h r = refl
chosen-one false h r = refl

chosen-three :
    (b₁ b₂ b₃ : Bool) (h₁ h₂ h₃ : HttpHandler) (r : HttpRequest)
    → chosen (if b₁ then some h₁ else if b₂ then some h₂ else if b₃ then some h₃ else none) r
      ≡ (if b₁ then h₁ r else if b₂ then h₂ r else if b₃ then h₃ r else not_found_res)
chosen-three true b₂ b₃ h₁ h₂ h₃ r = refl
chosen-three false true b₃ h₁ h₂ h₃ r = refl
chosen-three false false b₃ h₁ h₂ h₃ r = chosen-one b₃ h₃ r

by_method :
    (m : HttpMethod) (path : Bytes) (r : HttpRequest)
    → chosen (lookup (make_route_key m path) app.router.m_routes) r ≡ answer_by_method m path r
unfolding app TcpServer.get TcpServer.post TcpServer.put TcpServer.del Router.get Router.post
    Router.put Router.del add_route make_route_key lookup insert bytes_eq
by_method HttpMethod.get path r =
    chosen-three (bytes_eq (codes "/") path) (bytes_eq (codes "/api/health") path)
      (bytes_eq (codes "/test/large") path) welcome health large r
by_method HttpMethod.post path r =
    chosen-three (bytes_eq (codes "/api/echo") path) (bytes_eq (codes "/api/echo/large") path)
      (bytes_eq (codes "/test/echo") path) echo echo_large echo_plain r
by_method HttpMethod.put path r = chosen-one (bytes_eq (codes "/api/resource") path) update r
by_method HttpMethod.delete path r =
    chosen-one (bytes_eq (codes "/api/resources") path) remove_all r
by_method HttpMethod.head path r = refl
by_method HttpMethod.options path r = refl
by_method HttpMethod.unknown path r = refl

-- The server answers each request by its method and path alone; a path with another method, and a path
-- that is not registered, give 404, a HEAD request included.
pub route-app : (r : HttpRequest) → route r app.router ≡ answer_by_method r.method r.path r
unfolding route
route-app r =
    chosen-elim (lookup (make_route_key r.method r.path) app.router.m_routes) r
    ∙ by_method r.method r.path r
