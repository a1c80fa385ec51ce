-- ===== src/Network/Worker/Session.antt =====
-- The bytes of a client, in deliveries of any size at any time, each of which a read task serves
-- (`EventLoop::handle_client_read` in src/network/EventLoop.cpp). A task that has used its rounds up submits
-- itself again, and here that task runs before the next delivery. What is sent in between is left in
-- the write buffer.
pub mod Rounds
pub mod Shrink
pub mod Settled
pub mod Resume
pub mod Turns
pub mod Whole
use c_http_1_1_server.Base.{
  ℕ, zero, suc, ◌≤◌, ◌≡◌, Bool, false, List, [], ◌∷◌, ◌++◌, Option, none, some, Bytes, is_empty,
  length,
}
use c_http_1_1_server.Http.Router.{HttpRouter}
use c_http_1_1_server.Network.Connection.{Connection, append_read_data}
use c_http_1_1_server.Network.Worker.{
  Ending, emptied, incomplete, close_after_response, refused, has_more, Served, max_rounds, serve,
}
use c_http_1_1_server.Network.Worker.Timeless.{seen}

-- A task that may have left a request in the buffer is submitted again.
abbrev pub again :
    {L : Type 0} → (Connection → L → Option (Served L)) → Option (Served L) → Option (Served L)
again go_on none = none
again go_on (some s) =
    let next = go_on s.connection s.limiter in
    elim s.ending [
      | emptied ↦ some s
      | incomplete ↦ some s
      | close_after_response ↦ some s
      | refused ↦ some s
      | has_more ↦ next
    ]

-- Where the loop waits for more, it goes on with what is delivered.
abbrev pub then_deliver :
    {L : Type 0} → (Connection → L → Option (Served L)) → Option (Served L) → Option (Served L)
then_deliver go_on none = none
then_deliver go_on (some s) =
    let more = go_on s.connection s.limiter in
    elim s.ending [
      | emptied ↦ more
      | incomplete ↦ more
      | close_after_response ↦ some s
      | refused ↦ some s
      | has_more ↦ some s
    ]

-- All bytes of some deliveries.
abbrev pub all_bytes : List (ℕ × Bytes) → Bytes
all_bytes [] = []
all_bytes ((t, piece) ∷ pieces) = piece ++ all_bytes pieces

-- A `recv` that returns data returns a byte at least.
abbrev pub AllSome : List (ℕ × Bytes) → Type 0
AllSome [] = Unit {0}
AllSome ((t, piece) ∷ pieces) = (is_empty piece ≡ false) × AllSome pieces

-- More bytes in the read buffer.
abbrev pub deliver : Bytes → Connection → Connection
deliver more c = record c { read_buffer = c.read_buffer ++ more }

module _ {L : Type 0} (allow : Bytes → L → Bool × L)
    (walk : List (Bytes × Bytes) → List (Bytes × Bytes)) (router : HttpRouter) where
  -- The parse loops of so many tasks at most, one after the other: `none` if these are used up.
  unfoldable pub serve_turns : ℕ → ℕ → Connection → L → Option (Served L)
  unfolding serve
  serve_turns now zero c l = none
  serve_turns now (suc turns) c l =
      again (serve_turns now turns) (serve allow walk router now max_rounds c l)

  -- What is buffered at the time `now` is served, and then each delivery, with its time. A task that is
  -- submitted again has taken a byte at least.
  unfoldable pub session : ℕ → List (ℕ × Bytes) → Connection → L → Option (Served L)
  unfolding serve_turns append_read_data
  session now [] c l = serve_turns now (suc (length c.read_buffer)) c l
  session now ((t, piece) ∷ pieces) c l =
      then_deliver (λ c' l'. session t pieces (append_read_data t piece c') l')
        (serve_turns now (suc (length c.read_buffer)) c l)

  -- Given rounds enough, the loop ends so, at any time.
  unfoldable pub Yields : Connection → L → Ending × Bytes × L → Type 0
  Yields c l v = (k : ℕ) × ((now g : ℕ) → k ≤ g → seen (serve allow walk router now g c l) ≡ some v)
