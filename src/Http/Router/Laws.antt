-- ===== src/Http/Router/Laws.antt =====
-- Which handler a request reaches.
use c_http_1_1_server.Base.{
  ◌≡◌, ◌⊎◌, inl, inr, [], ◌∷◌, ◌++◌, arith, Bool-cases, some, ap₂, sym, ◌∙◌, Bytes, bytes_eq,
  bytes_eq_iff,
}
use mathlib.Core.Bool.{false≢true}
use c_http_1_1_server.Base.StringMap.{lookup, insert, lookup-insert}
use c_http_1_1_server.Http.Request.{HttpMethod, HttpRequest}
use c_http_1_1_server.Http.Router.{HttpHandler, HttpRouter, make_route_key, add_route, route}

cons_injective : {a b : Bytes} (x : Bytes) → x ++ a ≡ x ++ b → a ≡ b
cons_injective [] e = e
cons_injective (c ∷ cs) e = cons_injective cs (cc)

-- Two routes share a key only if they have the same method and path.
pub make_route_key-injective :
    (m n : HttpMethod) (p q : Bytes) → make_route_key m p ≡ make_route_key n q → (m ≡ n) × (p ≡ q)
unfolding make_route_key
make_route_key-injective m n p q e = ground arith

-- A request reaches the handler that was added last for its method and path, and any other request
-- reaches what it reached before.
pub route-add_route :
    (request : HttpRequest) (m : HttpMethod) (path : Bytes) (handler : HttpHandler) (r : HttpRouter)
    → ((m ≡ request.method)
        × (path ≡ request.path)
        × (route request (add_route m path handler r) ≡ handler request))
      ⊎ (¬ ((m ≡ request.method) × (path ≡ request.path))
          × (route request (add_route m path handler r) ≡ route request r))
unfolding route add_route
route-add_route request m path handler r =
    let key = make_route_key m path in
    let wanted = make_route_key request.method request.path in
    let found = lookup-insert key wanted handler r.m_routes in
    elim (Bool-cases (bytes_eq key wanted)) [
      | inl same ↦
          let (em, ep) =
            make_route_key-injective m request.method path request.path
              ((bytes_eq_iff key wanted).0 same) in
          let hit : lookup wanted (insert key handler r.m_routes) ≡ some handler =
            found ∙ rw same in
          inl (em, ep, rw (hit, route))
      | inr other ↦
          let miss : lookup wanted (insert key handler r.m_routes) ≡ lookup wanted r.m_routes =
            found ∙ rw other in
          inr (
            λ both. absurd (
                false≢true
                  (sym other ∙ (bytes_eq_iff key wanted).1 (ap₂ make_route_key both.0 both.1))),
            rw (miss, route),
          )
    ]
