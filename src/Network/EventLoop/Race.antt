-- ===== src/Network/EventLoop/Race.antt =====
-- Threads that accept at the same time. `EventLoop::handle_accept` runs in the thread of the loop and, from
-- `remove_connection`, in the workers; it tests the count of connections, calls `accept`, and counts
-- the client only when it is registered, with no lock around the three (src/network/EventLoop.cpp).
-- Elsewhere in this model a call of `handle_accept` is one step.
use c_http_1_1_server.Base.{
  ℕ, suc, ◌+◌, ◌%◌, ◌≤◌, ◌<◌, ◌≡◌, refl, ap, ◌∙◌, arith, Bool, true, false, Bytes,
}
use c_http_1_1_server.Http.Numbers.{word_mod}
use c_http_1_1_server.Middleware.PerIpConnectionLimiter.{PerIpConnectionLimiter, try_acquire}
use c_http_1_1_server.Network.Connection.{Connection}
use c_http_1_1_server.Network.EventLoop.{
  EventLoop, may_accept, accept_client, admit, register_client, drop_connection,
  max_total_connections, is_running,
}

-- The loop, and how many threads stand between the test and the end of the body.
pub record Accepting : Type 0 where
  pub loop : EventLoop
  pub passed : ℕ

-- A thread passes the test, or gets to the end of the body with a client or without one, or a
-- connection that is counted is removed.
pub data Step (threads : ℕ) : Accepting → Accepting → Type 0 where
  passes :
      (l : EventLoop) (n : ℕ)
      → may_accept l ≡ true
      → n < threads
      → Step threads (record { loop = l; passed = n }) (record { loop = l; passed = suc n })
  accepts :
      (now : ℕ) (registered : Bool) (client_fd : ℕ) (ip : Bytes) (l : EventLoop) (n : ℕ)
      → Step threads
          (record { loop = l; passed = suc n })
          (record { loop = accept_client now registered client_fd ip l; passed = n })
  finds_none :
      (l : EventLoop) (n : ℕ)
      → Step threads (record { loop = l; passed = suc n }) (record { loop = l; passed = n })
  removes :
      (client_fd : ℕ) (c : Connection) (l : EventLoop) (n : ℕ)
      → 0 < l.active_connections
      → Step threads
          (record { loop = l; passed = n })
          (record { loop = drop_connection client_fd c l; passed = n })

pub data Reach (threads : ℕ) (a : Accepting) : Accepting → Type 0 where
  here : Reach threads a a
  next : {b c : Accepting} → Reach threads a b → Step threads b c → Reach threads a c

may_accept-below :
    (l : EventLoop) → may_accept l ≡ true → l.active_connections < max_total_connections
unfolding may_accept
may_accept-below l h = ground arith

admit_count :
    (now : ℕ) (registered : Bool) (client_fd : ℕ) (ip : Bytes) (l : EventLoop)
    (a : Bool × PerIpConnectionLimiter)
    → (admit now registered client_fd ip l a).active_connections ≤ l.active_connections + 1
unfolding admit register_client
admit_count now registered client_fd ip l (false, after) = omega arith
admit_count now true client_fd ip l (true, after) = omega arith
admit_count now false client_fd ip l (true, after) = omega arith

drop_count :
    (client_fd : ℕ) (c : Connection) (l : EventLoop)
    → 0 < l.active_connections
    → (drop_connection client_fd c l).active_connections ≤ l.active_connections
unfolding drop_connection
drop_count client_fd c l h = omega arith

-- What every step keeps.
abbrev IsLimited : ℕ → Accepting → Type 0
IsLimited threads a = a.loop.active_connections + a.passed < max_total_connections + threads

Step-IsLimited :
    (threads : ℕ) {a b : Accepting} → Step threads a b → IsLimited threads a → IsLimited threads b
unfolding accept_client
Step-IsLimited threads (passes l n h k) v = omega (arith, may_accept-below l h)
Step-IsLimited threads (accepts now registered client_fd ip l n) v =
    omega (arith, admit_count now registered client_fd ip l (try_acquire ip l.ip_conn_limiter))
Step-IsLimited threads (finds_none l n) v = omega arith
Step-IsLimited threads (removes client_fd c l n h) v = omega (arith, drop_count client_fd c l h)

Reach-IsLimited :
    (threads : ℕ) {a b : Accepting} → IsLimited threads a → Reach threads a b → IsLimited threads b
Reach-IsLimited threads v here = v
Reach-IsLimited threads v (next r s) = Step-IsLimited threads s (Reach-IsLimited threads v r)

-- Threads that accept at the same time, in whatever order their tests, their clients and the removals of
-- counted connections come, never bring the count of active connections to more than 10000 and one
-- less than there are threads, if it was at most 10000 when none of them had begun.
pub count_bound :
    (threads : ℕ) (l : EventLoop) (b : Accepting)
    → 0 < threads
    → l.active_connections ≤ max_total_connections
    → Reach threads (record { loop = l; passed = 0 }) b
    → b.loop.active_connections + 1 ≤ max_total_connections + threads
count_bound threads l b some_thread within r =
    let limited = Reach-IsLimited threads (omega arith) r in omega arith

admit_registered :
    (now client_fd : ℕ) (ip : Bytes) (l : EventLoop) (a : Bool × PerIpConnectionLimiter)
    → a.0 ≡ true
    → ((admit now true client_fd ip l a).active_connections ≡ (l.active_connections + 1) % word_mod)
      × ((admit now true client_fd ip l a).ip_conn_limiter ≡ a.1)
unfolding admit register_client
admit_registered now client_fd ip l (true, after) h = (refl, refl)
admit_registered now client_fd ip l (false, after) h = absurd cc

-- That count is reached: a loop that runs has 9999 connections; two threads pass the test, and then
-- each registers a client whose address is within its limit. Then the loop has 10001 connections.
pub two_threads_exceed :
    (now fd₁ fd₂ : ℕ) (ip₁ ip₂ : Bytes) (l : EventLoop)
    → is_running l.state ≡ true
    → l.active_connections ≡ 9999
    → (try_acquire ip₁ l.ip_conn_limiter).0 ≡ true
    → (try_acquire ip₂ (try_acquire ip₁ l.ip_conn_limiter).1).0 ≡ true
    → (l' : EventLoop) × Reach 2
        (record { loop = l; passed = 0 })
        (record { loop = l'; passed = 0 })
      × (l'.active_connections ≡ max_total_connections + 1)
unfolding accept_client may_accept
two_threads_exceed now fd₁ fd₂ ip₁ ip₂ l on count first second =
    let free : may_accept l ≡ true = rw (on, count) refl in
    let l₁ = accept_client now true fd₁ ip₁ l in
    let (count₁, limiter₁) =
      admit_registered now fd₁ ip₁ l (try_acquire ip₁ l.ip_conn_limiter) first in
    let (count₂, _) =
      admit_registered now fd₂ ip₂ l₁ (try_acquire ip₂ l₁.ip_conn_limiter)
        (ap (λ x. (try_acquire ip₂ x).0) limiter₁ ∙ second) in
    (
      accept_client now true fd₂ ip₂ l₁,
      next
          (next (next (next here (passes l 0 free (omega arith))) (passes l 1 free (omega arith)))
            (accepts now true fd₁ ip₁ l 1))
          (accepts now true fd₂ ip₂ l₁ 0),
      omega (arith, count, count₁, count₂),
    )
