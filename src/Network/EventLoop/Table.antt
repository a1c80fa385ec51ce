-- ===== src/Network/EventLoop/Table.antt =====
-- The connection table, the count of connections and the slots of the addresses agree.
use c_http_1_1_server.Base.{
  ℕ, ◌+◌, ◌≡◌, ◌≤◌, ◌<◌, refl, sym, ap, subst, ◌∙◌, arith, Bool, true, false, List, [], ◌∷◌, Option,
  none, some, if◌then◌else◌, Bytes, bytes_eq, bytes_eq_iff,
}
use c_http_1_1_server.Base.FdMap.{
  find_fd, put_fd, Distinct, weigh, erase-Distinct, put-Distinct, weigh_put_new, weigh_erase,
  erase-put_new,
}
use c_http_1_1_server.Middleware.PerIpConnectionLimiter.{
  PerIpConnectionLimiter, held, try_acquire, release,
}
use c_http_1_1_server.Middleware.PerIpConnectionLimiter.Slots.{try_acquire-held, held-release}
use c_http_1_1_server.Network.Connection.{Connection, connect, set_client_ip}
use c_http_1_1_server.Network.EventLoop.{
  EventLoop, Accept, would_block, transient, fatal, client, register_client, admit, accept_client,
  may_accept, handle_accept, drop_connection, resume_accept, remove_found, remove_connection,
  max_total_connections,
}

-- 1 for a connection from the address.
abbrev pub from : Bytes → Connection → ℕ
from ip c = if bytes_eq c.client_ip ip then 1 else 0

abbrev pub one : Connection → ℕ
one c = 1

pub record IsValid (l : EventLoop) : Type 0 where
  pub distinct : Distinct l.connections
  pub counted : l.active_connections ≡ weigh one l.connections
  pub slots : (ip : Bytes) → held ip l.ip_conn_limiter ≡ weigh (from ip) l.connections
  pub total : l.active_connections ≤ max_total_connections

-- Each descriptor that `accept` returns is not in the table at that time.
unfoldable pub AllFresh : ℕ → List Accept → EventLoop → Type 0
AllFresh now [] l = Unit
AllFresh now (would_block ∷ waiting) l = AllFresh now waiting l
AllFresh now (fatal ∷ waiting) l = AllFresh now waiting l
AllFresh now (transient ∷ waiting) l = AllFresh now waiting l
AllFresh now (client client_fd ip registered ∷ waiting) l =
    (find_fd client_fd l.connections ≡ none)
    × AllFresh now waiting (accept_client now registered client_fd ip l)

-- `after` holds one more slot for the address than `before`.
abbrev Took : Bytes → PerIpConnectionLimiter → PerIpConnectionLimiter → Type 0
Took ip before after =
    (who : Bytes) → held who after ≡ held who before + (if bytes_eq ip who then 1 else 0)

give_back :
    (ip who : Bytes) (after before : PerIpConnectionLimiter)
    → Took ip before after
    → held who (release ip after) ≡ held who before
give_back ip who after before more = ground (
  arith,
  held-release ip who after,
  more ip,
  more who,
  bytes_eq_iff ip ip,
  bytes_eq_iff ip who,
  λ (e : ip ≡ who). ap (λ w. held w before) e,
)

took :
    (ip : Bytes) (before : PerIpConnectionLimiter)
    → let (given, after) = try_acquire ip before in given ≡ true → Took ip before after
took ip before given who = ground (
  arith,
  try_acquire-held ip who before,
  bytes_eq_iff ip who,
  λ (e : ip ≡ who). ap (λ w. held w before) e,
)

refused_same :
    (ip : Bytes) (before : PerIpConnectionLimiter)
    → let (given, after) = try_acquire ip before in
      given ≡ false → (who : Bytes) → held who after ≡ held who before
refused_same ip before refused who = ground (arith, try_acquire-held ip who before)

register-IsValid :
    (registered : Bool) (now fd : ℕ) (ip : Bytes) (l : EventLoop) (after : PerIpConnectionLimiter)
    → IsValid l
    → l.active_connections < max_total_connections
    → find_fd fd l.connections ≡ none
    → ((who : Bytes)
        → held who after ≡ held who l.ip_conn_limiter + (if bytes_eq ip who then 1 else 0))
    → IsValid (
        register_client registered fd ip (record l {
          ip_conn_limiter = after;
          connections = put_fd fd (set_client_ip ip (connect now fd)) l.connections;
        }))
unfolding register_client set_client_ip
register-IsValid true now fd ip l after v room new more =
    let c = set_client_ip ip (connect now fd) in
    record {
      distinct = put-Distinct fd c l.connections v.distinct;
      counted = omega (arith, v.counted, weigh_put_new one fd c l.connections new);
      slots = λ who.
          omega (arith, more who, v.slots who, weigh_put_new (from who) fd c l.connections new);
      total = omega arith;
    }
register-IsValid false now fd ip l after v room new more =
    let c = set_client_ip ip (connect now fd) in
    let same = erase-put_new fd c l.connections new in
    record {
      distinct = subst Distinct (sym same) v.distinct;
      counted = v.counted ∙ ap (weigh one) (sym same);
      slots = λ who.
          give_back ip who after l.ip_conn_limiter more
          ∙ v.slots who
          ∙ ap (weigh (from who)) (sym same);
      total = v.total;
    }

admit-IsValid :
    (now : ℕ) (registered : Bool) (fd : ℕ) (ip : Bytes) (l : EventLoop)
    (a : Bool × PerIpConnectionLimiter)
    → IsValid l
    → l.active_connections < max_total_connections
    → find_fd fd l.connections ≡ none
    → try_acquire ip l.ip_conn_limiter ≡ a
    → IsValid (admit now registered fd ip l a)
unfolding admit
admit-IsValid now registered fd ip l (true, after) v room new e =
    register-IsValid registered now fd ip l after v room new (
      subst (λ (a : Bool × PerIpConnectionLimiter). a.0 ≡ true → Took ip l.ip_conn_limiter a.1) e
        (took ip l.ip_conn_limiter) refl)
admit-IsValid now registered fd ip l (false, after) v room new e = record {
  distinct = v.distinct;
  counted = v.counted;
  slots = λ who.
      subst
        (λ (a : Bool × PerIpConnectionLimiter).
          a.0 ≡ false → (who : Bytes) → held who a.1 ≡ held who l.ip_conn_limiter)
        e (refused_same ip l.ip_conn_limiter) refl who
      ∙ v.slots who;
  total = v.total;
}

-- Accepting keeps the table right: no descriptor twice, the count of active connections that of the
-- table and at most 10000, and each address holding as many slots as it has connections. This needs
-- that the kernel returns no descriptor that is open.
pub handle_accept-IsValid :
    (now : ℕ) (waiting : List Accept) (l : EventLoop)
    → IsValid l
    → AllFresh now waiting l
    → IsValid (handle_accept now waiting l)
unfolding handle_accept AllFresh accept_client may_accept
handle_accept-IsValid now [] l v f = v
handle_accept-IsValid now (would_block ∷ waiting) l v f = v
handle_accept-IsValid now (fatal ∷ waiting) l v f = v
handle_accept-IsValid now (transient ∷ waiting) l v f =
    ground (arith, handle_accept-IsValid now waiting l v f)
handle_accept-IsValid now (client fd ip registered ∷ waiting) l v f = ground (
  arith,
  λ (room : l.active_connections < max_total_connections).
      handle_accept-IsValid now waiting (accept_client now registered fd ip l)
        (admit-IsValid now registered fd ip l (try_acquire ip l.ip_conn_limiter) v room f.0 refl)
        f.1,
)

drop-IsValid :
    (fd : ℕ) (c : Connection) (l : EventLoop)
    → IsValid l
    → find_fd fd l.connections ≡ some c
    → IsValid (drop_connection fd c l)
unfolding drop_connection
drop-IsValid fd c l v found = record {
  distinct = erase-Distinct fd l.connections v.distinct;
  counted = omega (arith, v.counted, weigh_erase one fd c l.connections v.distinct found, v.total);
  slots = λ ip. ground (
    arith,
    held-release c.client_ip ip l.ip_conn_limiter,
    v.slots ip,
    weigh_erase (from ip) fd c l.connections v.distinct found,
    bytes_eq_iff c.client_ip ip,
    λ (e : c.client_ip ≡ ip). ap (λ w. held w l.ip_conn_limiter) e,
  );
  total = omega (arith, v.counted, weigh_erase one fd c l.connections v.distinct found, v.total);
}

resume-IsValid :
    (now : ℕ) (waiting : List Accept) (l : EventLoop)
    → IsValid l
    → AllFresh now waiting l
    → IsValid (resume_accept now waiting l)
unfolding resume_accept
resume-IsValid now waiting l v f = ground (arith, handle_accept-IsValid now waiting l v f)

-- Removing a connection, and accepting into the slot that is free, keeps the table right; so does
-- removing one that is not there. This needs that the kernel then returns no descriptor that is open.
pub remove_connection-IsValid :
    (now : ℕ) (waiting : List Accept) (fd : ℕ) (l : EventLoop)
    → IsValid l
    → ((c : Connection)
        → find_fd fd l.connections ≡ some c
        → AllFresh now waiting (drop_connection fd c l))
    → IsValid (remove_connection now waiting fd l)
unfolding remove_connection remove_found
remove_connection-IsValid now waiting fd l v f = found (find_fd fd l.connections) refl
  where
    found :
        (o : Option Connection)
        → find_fd fd l.connections ≡ o
        → IsValid (remove_found now waiting fd l o)
    found none e = v
    found (some c) e =
        resume-IsValid now waiting (drop_connection fd c l) (drop-IsValid fd c l v e) (f c e)
