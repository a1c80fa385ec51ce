-- ===== src/Http/Response/Close.antt =====
-- What the client is told about the connection, and what the server does with it.
use c_http_1_1_server.Base.{
  ◌≡◌, refl, ap, ◌∙◌, Bool, true, false, not, ◌&&◌, some, if◌then◌else◌, Bytes, bytes_eq, codes,
  contains, to_lower,
}
use c_http_1_1_server.Http.Headers
use c_http_1_1_server.Http.Headers.Laws.{get-set}
use c_http_1_1_server.Http.Response.{
  HttpResponse, announce, asks_close, set_header, already_close, finalize_for_connection,
}

connection_self : bytes_eq (to_lower (codes "Connection")) (to_lower (codes "Connection")) ≡ true
unfolding bytes_eq to_lower
connection_self = refl

connection_set :
    (v : Bytes) (r : HttpResponse)
    → Headers.get (codes "Connection") (set_header (codes "Connection") v r).headers ≡ some v
unfolding set_header
connection_set v r =
    get-set (codes "Connection") (codes "Connection") v r.headers ∙ rw connection_self

Announces : Bool → HttpResponse → HttpResponse → Type 0
Announces keep r after =
    (after.close_after_send ≡ not keep)
    × (Headers.get (codes "Connection") after.headers
        ≡ some (if after.close_after_send then codes "close" else codes "keep-alive"))
    × (already_close after ≡ after.close_after_send)
    × (after.body ≡ r.body)
    × (after.status_code ≡ r.status_code)

already_close-get :
    (v : Bytes) (r : HttpResponse)
    → Headers.get (codes "Connection") r.headers ≡ some v
    → already_close r ≡ contains (codes "close") (to_lower v)
unfolding already_close asks_close
already_close-get v r e = ap asks_close e

announce-Announces : (keep : Bool) (r : HttpResponse) → Announces keep r (announce keep r)
unfolding Announces announce set_header contains to_lower
announce-Announces true r =
    let e = connection_set (codes "keep-alive") r in
    (refl, e, already_close-get (codes "keep-alive") (announce true r) e, refl, refl)
announce-Announces false r =
    let e = connection_set (codes "close") r in
    (refl, e, already_close-get (codes "close") (announce false r) e, refl, refl)

-- The response keeps its status and body; the connection is kept only if the client asked for it
-- and the handler did not ask for a close; the `Connection` header that is sent says just that; and
-- reading that header back asks for a close exactly if the connection is to be closed.
pub finalize_agrees :
    (keep head : Bool) (r : HttpResponse)
    → let after = finalize_for_connection keep head r in
      (after.close_after_send ≡ not (keep && not (already_close r)))
      × (Headers.get (codes "Connection") after.headers
          ≡ some (if after.close_after_send then codes "close" else codes "keep-alive"))
      × (already_close after ≡ after.close_after_send)
      × (after.body ≡ r.body)
      × (after.status_code ≡ r.status_code)
unfolding finalize_for_connection Announces
finalize_agrees keep head r = announce-Announces (keep && not (already_close r)) r
