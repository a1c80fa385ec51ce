-- ===== src/Network/Worker/Session/Whole.antt =====
-- A session is as if all its bytes had come at once.
use mathlib.Core.List.{Permᴰ}
use c_http_1_1_server.Base.{
  ℕ, suc, ◌+◌, ◌≤◌, ◌≡◌, ◌≢◌, refl, sym, ap, ◌∙◌, subst, arith, Bool, List, [], ◌∷◌, ◌++◌, map,
  length, append-nil, append_assoc, Option, some, eq_of_some, Bytes,
}
use c_http_1_1_server.Protocol.Framer.Refuse.{ShortLines}
use c_http_1_1_server.Http.Parser.Suffix.{Suffix-append, ShortLines-Suffix}
use c_http_1_1_server.Http.Router.{HttpRouter}
use c_http_1_1_server.Http.Client.Answers.{whole_reply}
use c_http_1_1_server.Network.Connection.{Connection, append_read_data}
use c_http_1_1_server.Network.Worker.{Ending, Served, serve}
use c_http_1_1_server.Network.Worker.Timeless.{seen, timeless, serve-timeless}
use c_http_1_1_server.Network.Worker.Pipeline.{Message, AllMessages, ready, stream}
use c_http_1_1_server.Network.Worker.Conversation.{
  AllAnswered, responses, read_responses, conversation,
}
use c_http_1_1_server.Network.Worker.Session.{
  then_deliver, all_bytes, AllSome, deliver, session, Yields,
}
use c_http_1_1_server.Network.Worker.Session.Rounds.{view, empty_append}
use c_http_1_1_server.Network.Worker.Session.Settled.{Settled, Resumed}
use c_http_1_1_server.Network.Worker.Session.Turns.{serve_turns-Resumes}

module _ {L : Type 0} (allow : Bytes → L → Bool × L)
    (walk : List (Bytes × Bytes) → List (Bytes × Bytes)) (router : HttpRouter) where
  Yields-timeless :
      (c c' : Connection) (l : L) (v : Ending × Bytes × L)
      → timeless c ≡ timeless c'
      → Yields allow walk router c l v
      → Yields allow walk router c' l v
  unfolding Yields
  Yields-timeless c c' l v e (k, y) =
      (k, λ now g h. serve-timeless allow walk router now now g c' c l (sym e) ∙ y now g h)

  Settled-view :
      (c : Connection) (l : L) (s : Served L) (e : Ending)
      → e ≢ Ending.has_more
      → Settled allow walk router c l s e
      → Yields allow walk router c l (view allow walk router s)
  Settled-view c l s Ending.emptied r y = y
  Settled-view c l s Ending.incomplete r y = y
  Settled-view c l s Ending.close_after_response r y = y
  Settled-view c l s Ending.refused r y = y
  Settled-view c l s Ending.has_more r y = absurd (r refl)

  -- The end of the session behind the first tasks that ended so.
  after_first :
      (more : Bytes) (c : Connection) (l : L) (s₁ s : Served L) (e : Ending)
      (rest : Option (Served L))
      → e ≢ Ending.has_more
      → ShortLines (c.read_buffer ++ more)
      → Resumed allow walk router more c l s₁ e
      → (elim e [
        | Ending.emptied ↦ rest
        | Ending.incomplete ↦ rest
        | Ending.close_after_response ↦ some s₁
        | Ending.refused ↦ some s₁
        | Ending.has_more ↦ some s₁
      ])
        ≡ some s
      → (rest ≡ some s
          → Yields allow walk router
              (deliver more s₁.connection)
              s₁.limiter
              (view allow walk router s))
      → Yields allow walk router (deliver more c) l (view allow walk router s)
  after_first more c l s₁ s Ending.emptied rest r short resumed ends go = resumed _ (go ends)
  after_first more c l s₁ s Ending.incomplete rest r short resumed ends go = resumed _ (go ends)
  after_first more c l s₁ s Ending.close_after_response rest r short resumed ends go =
      subst (λ x. Yields allow walk router (deliver more c) l (view allow walk router x))
        (eq_of_some ends) resumed
  after_first more c l s₁ s Ending.refused rest r short resumed ends go =
      subst (λ x. Yields allow walk router (deliver more c) l (view allow walk router x))
        (eq_of_some ends) (resumed short)
  after_first more c l s₁ s Ending.has_more rest r short resumed ends go = absurd (r refl)

  session-Yields :
      (pieces : List (ℕ × Bytes)) (now : ℕ) (c : Connection) (l : L) (s : Served L)
      → AllSome pieces
      → ShortLines (c.read_buffer ++ all_bytes pieces)
      → session allow walk router now pieces c l ≡ some s
      → Yields allow walk router (deliver (all_bytes pieces) c) l (view allow walk router s)
  unfolding session append_read_data
  session-Yields [] now c l s v short e =
      let (s', p, regular, settled, _, _) =
        serve_turns-Resumes allow walk router (0 ∷ []) refl now (suc (length c.read_buffer)) c l
          (omega arith) in
      let same : s' ≡ s = eq_of_some (sym p ∙ e) in
      subst
        (λ b. Yields allow walk router (record c { read_buffer = b }) l (view allow walk router s))
        (sym (append-nil c.read_buffer))
        (subst (λ (x : Served L). Yields allow walk router c l (view allow walk router x)) same
          (Settled-view c l s' s'.ending regular settled))
  session-Yields ((t, piece) ∷ pieces) now c l s (here, others) short e =
      let rest = all_bytes pieces in
      let more = piece ++ rest in
      let (s₁, p, regular, _, resumed, shorter) =
        serve_turns-Resumes allow walk router more (empty_append piece rest here) now
          (suc (length c.read_buffer)) c l (omega arith) in
      let go : Connection → L → Option (Served L) =
        λ c' l'. session allow walk router t pieces (append_read_data t piece c') l' in
      let d = s₁.connection in
      let short' =
        subst ShortLines (sym (append_assoc d.read_buffer piece rest))
          (ShortLines-Suffix _ _ (Suffix-append d.read_buffer c.read_buffer more shorter) short) in
      after_first more c l s₁ s s₁.ending (go d s₁.limiter) regular short resumed
        (ap (then_deliver go) (sym p) ∙ e)
        (λ ends.
          Yields-timeless (deliver rest (append_read_data t piece d)) (deliver more d) s₁.limiter _
            (ap (λ b. timeless (record d { read_buffer = b }))
              (append_assoc d.read_buffer piece rest))
            (session-Yields pieces t (append_read_data t piece d) s₁.limiter s others short' ends))

  then_deliver-total :
      (go : Connection → L → Option (Served L)) (s : Served L)
      → ((c : Connection) (l : L) → (s' : Served L) × (go c l ≡ some s'))
      → (s' : Served L) × (then_deliver go (some s) ≡ some s')
  then_deliver-total go s h = by_ending s.ending
    where
      rest : Option (Served L)
      rest = go s.connection s.limiter

      by_ending :
          (e : Ending)
          → (s' : Served L) × ((elim e [
            | Ending.emptied ↦ rest
            | Ending.incomplete ↦ rest
            | Ending.close_after_response ↦ some s
            | Ending.refused ↦ some s
            | Ending.has_more ↦ some s
          ])
              ≡ some s')
      by_ending Ending.emptied = h s.connection s.limiter
      by_ending Ending.incomplete = h s.connection s.limiter
      by_ending Ending.close_after_response = (s, refl)
      by_ending Ending.refused = (s, refl)
      by_ending Ending.has_more = (s, refl)

  session-total :
      (pieces : List (ℕ × Bytes)) (now : ℕ) (c : Connection) (l : L)
      → (s : Served L) × (session allow walk router now pieces c l ≡ some s)
  unfolding session
  session-total [] now c l =
      let (s, p, _, _, _, _) =
        serve_turns-Resumes allow walk router (0 ∷ []) refl now (suc (length c.read_buffer)) c l
          (omega arith) in
      (s, p)
  session-total ((t, piece) ∷ pieces) now c l =
      let (s₁, p, _, _, _, _) =
        serve_turns-Resumes allow walk router (0 ∷ []) refl now (suc (length c.read_buffer)) c l
          (omega arith) in
      let go : Connection → L → Option (Served L) =
        λ c' l'. session allow walk router t pieces (append_read_data t piece c') l' in
      let (s, e) = then_deliver-total go s₁ (λ c' l'. session-total pieces t _ l') in
      (s, ap (then_deliver go) p ∙ e)

  -- The bytes of a client, in which no stretch of more than 8 KB is without a CRLF, are cut into
  -- deliveries in any way, and these arrive at any time. Then the session comes to an end, and it ends
  -- as one run of the parse loop on all the bytes together, given rounds enough: with the same bytes
  -- to be sent, the same state of the rate limiter and the same ending, be it a refusal or not.
  pub session-serve :
      (pieces : List (ℕ × Bytes)) (now : ℕ) (c : Connection) (l : L)
      → AllSome pieces
      → ShortLines (c.read_buffer ++ all_bytes pieces)
      → (s : Served L) × (session allow walk router now pieces c l ≡ some s)
        × (k : ℕ) × ((later rounds : ℕ)
            → k ≤ rounds
            → seen (serve allow walk router later rounds (deliver (all_bytes pieces) c) l)
              ≡ some (s.ending, s.connection.write_buffer, s.limiter))
  unfolding Yields
  session-serve pieces now c l v short =
      let (s, e) = session-total pieces now c l in
      let (k, y) = session-Yields pieces now c l s v short e in (s, e, k, y)

  -- Printed requests other than HEAD, as many as there may be, whose handlers make responses that a
  -- client can read, and in whose bytes no stretch of more than 8 KB is without a CRLF, arrive in
  -- deliveries of any size and at any time on a connection on which nothing is begun. The session
  -- comes to an end, and from the bytes that it has queued a client reads exactly one response for
  -- each request, in the order of the requests, up to the first whose client does not want the
  -- connection kept or whose handler asks for a close, or to a 429 for the first that the rate limiter
  -- refuses.
  pub session-conversation :
      (same_entries : (m : List (Bytes × Bytes)) → Permᴰ m (walk m)) (ms : List Message)
      (pieces : List (ℕ × Bytes)) (now : ℕ) (c : Connection) (l : L)
      → AllMessages ms
      → AllAnswered router ms
      → AllSome pieces
      → all_bytes pieces ≡ stream ms
      → ShortLines (stream ms)
      → let rs = responses allow router c.client_ip ms l in
        (s : Served L) × (more : Bytes) × (session allow walk router now pieces (ready [] c) l
          ≡ some s)
        × (s.connection.write_buffer ≡ c.write_buffer ++ more)
        × ((rest : Bytes)
            → read_responses (length rs) (more ++ rest) ≡ some (map (whole_reply walk) rs, rest))
  session-conversation same_entries ms pieces now c l v answered some_each cut short =
      let (s, e, k, y) =
        session-serve pieces now (ready [] c) l some_each (subst ShortLines (sym cut) short) in
      let rounds = k + length ms in
      let (s', more, served, queued, reads) =
        conversation allow walk router now same_entries ms rounds c l (omega arith) v answered in
      let same =
        sym (y now rounds (omega arith))
        ∙ ap (λ b. seen (serve allow walk router now rounds (deliver b (ready [] c)) l)) cut
        ∙ ap seen served in
      (s, more, e, ap (λ (x : Ending × Bytes × L). x.1) (eq_of_some same) ∙ queued, reads)
