-- ===== src/Network/Server/Tasks.antt =====
-- What a read and a write task leave as it was, and that they arm what they keep.
use c_http_1_1_server.Base.{
  ℕ, ◌≡◌, refl, sym, ap, ◌∙◌, arith, Bool, true, false, List, [], ◌∷◌, some, Bytes, subst,
  eq_of_some,
}
use c_http_1_1_server.Http.Router.{HttpRouter}
use c_http_1_1_server.Network.Connection.{
  Connection, Sent, Flushed, flush, append_read_data, mark_close_after_write,
}
use c_http_1_1_server.Network.Worker.{Ending, max_rounds}
use c_http_1_1_server.Network.Worker.Answers.{serve-Answers}
use c_http_1_1_server.Network.ReadTask.{
  Received, bytes, closed, would_block, failed, receive, Action, remove, rearm, after_flush,
  after_serve, read_received, client_read,
}
use c_http_1_1_server.Network.WriteTask.{after_write, client_write}
use c_http_1_1_server.Network.Server.Attended.Steps.{IsArming}

-- The address is kept, and the connection is removed or armed.
abbrev pub Keeps : Bytes → Action × Connection → Type 0
Keeps ip (action, c) = (c.client_ip ≡ ip) × IsArming action

receive-client_ip :
    (now : ℕ) (results : List Received) (c : Connection)
    → (receive now results c).1.client_ip ≡ c.client_ip
unfolding receive append_read_data
receive-client_ip now [] c = refl
receive-client_ip now (bytes arrived ∷ results) c =
    receive-client_ip now results (append_read_data now arrived c)
receive-client_ip now (closed ∷ results) c = refl
receive-client_ip now (would_block ∷ results) c = refl
receive-client_ip now (failed ∷ results) c = refl

rearm-Keeps : (again sent : Bool) (c : Connection) → Keeps c.client_ip (rearm again sent c)
unfolding rearm
rearm-Keeps again sent c = (refl, refl)

after_flush-Keeps :
    (e : Ending) (f : Flushed) (c : Connection) → Keeps c.client_ip (after_flush e (f, c))
unfolding after_flush mark_close_after_write
after_flush-Keeps Ending.refused f c = ground arith
after_flush-Keeps Ending.close_after_response f c = ground arith
after_flush-Keeps Ending.has_more f c = ground (arith, rearm-Keeps true f.all_sent c)
after_flush-Keeps Ending.emptied f c = ground (arith, rearm-Keeps false f.all_sent c)
after_flush-Keeps Ending.incomplete f c = ground (arith, rearm-Keeps false f.all_sent c)

after_write-Keeps :
    (running : Bool) (f : Flushed) (c : Connection) → Keeps c.client_ip (after_write running (f, c))
unfolding after_write
after_write-Keeps running f c = ground arith

pub client_write-Keeps :
    (running : Bool) (sends : List Sent) (c : Connection)
    → Keeps c.client_ip (client_write running sends c)
unfolding client_write flush
client_write-Keeps running sends c =
    let (f, after) = flush sends c in after_write-Keeps running f after

module _ {L : Type 0} (allow : Bytes → L → Bool × L)
    (walk : List (Bytes × Bytes) → List (Bytes × Bytes)) (router : HttpRouter) (now : ℕ) where
  read_received-Keeps :
      (sends : List Sent) (l : L) (r : Bool × Connection)
      → (a : Action × Connection) × (read_received allow walk router now sends l r ≡ some a)
        × Keeps r.1.client_ip a
  unfolding read_received after_serve flush
  read_received-Keeps sends l (true, c) = ((remove, c), refl, (refl, tt))
  read_received-Keeps sends l (false, c) =
      let (s, e, x) = serve-Answers allow walk router now max_rounds c l in
      let (f, after) = flush sends s.connection in
      (
        after_flush s.ending (f, after),
        ap (after_serve sends) e,
        subst (λ ip. Keeps ip (after_flush s.ending (f, after))) x.same_ip
            (after_flush-Keeps s.ending f after),
      )

  pub client_read-Keeps :
      (results : List Received) (sends : List Sent) (c : Connection) (l : L)
      (a : Action × Connection)
      → client_read allow walk router now results sends c l ≡ some a
      → Keeps c.client_ip a
  unfolding client_read
  client_read-Keeps results sends c l a e =
      let r = receive now results c in
      let (b, f, k) = read_received-Keeps sends l r in
      subst (λ ip. Keeps ip a) (receive-client_ip now results c)
        (subst (Keeps r.1.client_ip) (eq_of_some (sym f ∙ e)) k)
