-- ===== src/Http/Router.antt =====
-- `HttpRouter` (include/Http/HttpRouter.h, src/Http/HttpRouter.cpp). A handler is a function; the
-- warning that is logged for a duplicate route changes no state of the router.
pub mod Laws
use c_http_1_1_server.Base.{◌++◌, List, [], Option, none, some, Bytes, codes}
use c_http_1_1_server.Base.StringMap.{lookup, insert}
use c_http_1_1_server.Http.Request.{HttpMethod, HttpRequest}
use c_http_1_1_server.Http.Response
use c_http_1_1_server.Http.Response.{HttpResponse}

abbrev pub HttpHandler : Type 0
HttpHandler = HttpRequest → HttpResponse

pub record HttpRouter : Type 0 where
  pub m_routes : List (Bytes × HttpHandler)

abbrev pub empty : HttpRouter
empty = record { m_routes = [] }

abbrev pub method_prefix : HttpMethod → Bytes
method_prefix HttpMethod.get = codes "GET:"
method_prefix HttpMethod.post = codes "POST:"
method_prefix HttpMethod.put = codes "PUT:"
method_prefix HttpMethod.delete = codes "DELETE:"
method_prefix HttpMethod.head = codes "HEAD:"
method_prefix HttpMethod.options = codes "OPTIONS:"
method_prefix HttpMethod.unknown = codes "UNKNOWN:"

unfoldable pub make_route_key : HttpMethod → Bytes → Bytes
make_route_key method path = method_prefix method ++ path

unfoldable pub add_route : HttpMethod → Bytes → HttpHandler → HttpRouter → HttpRouter
add_route method path handler r = record {
  m_routes = insert (make_route_key method path) handler r.m_routes;
}

unfoldable pub get : Bytes → HttpHandler → HttpRouter → HttpRouter
unfolding add_route
get path handler r = add_route HttpMethod.get path handler r

unfoldable pub post : Bytes → HttpHandler → HttpRouter → HttpRouter
unfolding add_route
post path handler r = add_route HttpMethod.post path handler r

unfoldable pub put : Bytes → HttpHandler → HttpRouter → HttpRouter
unfolding add_route
put path handler r = add_route HttpMethod.put path handler r

unfoldable pub del : Bytes → HttpHandler → HttpRouter → HttpRouter
unfolding add_route
del path handler r = add_route HttpMethod.delete path handler r

unfoldable pub not_found_res : HttpResponse
not_found_res =
    Response.html
      (codes "<h1>404 Not Found</h1><p>The requested URL was not found on this server.</p>")
      (Response.set_status 404 (codes "Not Found") Response.fresh)

unfoldable pub route : HttpRequest → HttpRouter → HttpResponse
unfolding make_route_key not_found_res
route request r = elim (lookup (make_route_key request.method request.path) r.m_routes) [
  | some handler ↦ handler request
  | none ↦ not_found_res
]
