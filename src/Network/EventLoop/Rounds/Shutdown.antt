-- ===== src/Network/EventLoop/Rounds/Shutdown.antt =====
-- A loop that is asked to stop comes to an end, and gives everything back.
use c_http_1_1_server.Base.{
  ℕ, ◌≡◌, ◌<◌, refl, sym, ap, ◌∙◌, arith, List, [], ◌∷◌, ◌++◌, append_assoc, append-nil, Bytes,
  bytes_eq_iff,
}
use c_http_1_1_server.Base.FdMap.{weigh}
use c_http_1_1_server.Http.Numbers.{word_mod}
use c_http_1_1_server.Middleware.PerIpConnectionLimiter.{held}
use c_http_1_1_server.Middleware.PerIpConnectionLimiter.Slots.{held-release}
use c_http_1_1_server.Network.Connection.{Connection}
use c_http_1_1_server.Network.EventLoop.{EventLoop}
use c_http_1_1_server.Network.EventLoop.Table.{IsValid, from, one}
use c_http_1_1_server.Network.EventLoop.Rounds.{cleanup_each, descriptors, cleanup_all_connections}

abbrev pub keys : List (ℕ × Connection) → List ℕ
keys [] = []
keys ((fd, c) ∷ m) = fd ∷ keys m

cleanup_each_counts :
    (m : List (ℕ × Connection)) (l : EventLoop)
    → l.active_connections ≡ weigh one m
    → l.active_connections < word_mod
    → (cleanup_each m l).active_connections ≡ 0
unfolding cleanup_each
cleanup_each_counts [] l e b = e
cleanup_each_counts ((fd, c) ∷ m) l e b =
    cleanup_each_counts m _ (omega (arith, e)) (omega (arith, e))

cleanup_each_slots :
    (ip : Bytes) (m : List (ℕ × Connection)) (l : EventLoop)
    → held ip l.ip_conn_limiter ≡ weigh (from ip) m
    → held ip (cleanup_each m l).ip_conn_limiter ≡ 0
unfolding cleanup_each
cleanup_each_slots ip [] l e = e
cleanup_each_slots ip ((fd, c) ∷ m) l e = cleanup_each_slots ip m _ (
    ground (
      arith,
      e,
      held-release c.client_ip ip l.ip_conn_limiter,
      bytes_eq_iff c.client_ip ip,
      λ (e : c.client_ip ≡ ip). ap (λ w. held w l.ip_conn_limiter) e,
    ))

cleanup_each_closes :
    (m : List (ℕ × Connection)) (l : EventLoop) → (cleanup_each m l).closed ≡ l.closed ++ keys m
unfolding cleanup_each
cleanup_each_closes [] l = sym (append-nil l.closed)
cleanup_each_closes ((fd, c) ∷ m) l =
    cleanup_each_closes m _ ∙ append_assoc l.closed (fd ∷ []) (keys m)

-- If the table is right, the cleanup at the end leaves no connection, no active connection and no slot of any address, and
-- closes each descriptor of the table, and then again the descriptor of each of its connections.
pub cleanup_releases :
    (l : EventLoop)
    → IsValid l
    → let after = cleanup_all_connections l in
      (after.connections ≡ [])
      × (after.active_connections ≡ 0)
      × ((ip : Bytes) → held ip after.ip_conn_limiter ≡ 0)
      × (after.closed ≡ (l.closed ++ keys l.connections) ++ descriptors l.connections)
unfolding cleanup_all_connections
cleanup_releases l v = (
  refl,
  cleanup_each_counts l.connections l v.counted (omega (arith, v.total)),
  (λ ip. cleanup_each_slots ip l.connections l (v.slots ip)),
  ap (λ x. x ++ descriptors l.connections) (cleanup_each_closes l.connections l),
)
