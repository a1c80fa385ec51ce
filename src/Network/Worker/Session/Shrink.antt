-- ===== src/Network/Worker/Session/Shrink.antt =====
-- A run of the parse loop that uses its rounds up takes bytes.
use c_http_1_1_server.Base.{
  ℕ, zero, suc, ◌+◌, ◌≤◌, ◌≡◌, refl, ap, ◌∙◌, arith, Bool, true, false, List, Option, some,
  eq_of_some, Bool-cases, inl, inr, Bytes, is_empty, length,
}
use c_http_1_1_server.Http.Router.{HttpRouter}
use c_http_1_1_server.Http.Parser
use c_http_1_1_server.Http.Parser.{State, Machine, ParseResult, parse}
use c_http_1_1_server.Http.Parser.Total.{parse_total}
use c_http_1_1_server.Http.Parser.Suffix.{parse-Suffix, length-Suffix}
use c_http_1_1_server.Http.Parser.Refuse.{parse-success-shorter}
use c_http_1_1_server.Network.Connection.{Connection, append_unsent_data}
use c_http_1_1_server.Network.Worker.{
  Ending, Served, machine_of, respond, handled, store, answer, after_parse, serve,
}

module _ {L : Type 0} (allow : Bytes → L → Bool × L)
    (walk : List (Bytes × Bytes) → List (Bytes × Bytes)) (router : HttpRouter) (now : ℕ) where
  -- A run that has used its rounds up has gone on behind a whole request.
  abbrev Went : (Connection → L → Option (Served L)) → Machine → Served L → Type 0
  Went go_on m s =
      (c : Connection) × (l : L) × (go_on c l ≡ some s)
      × (c.read_buffer ≡ m.read_buffer)
      × (c.parser.m_state ≡ State.request_line)

  ended_so :
      (s s' : Served L)
      → some s' ≡ some s
      → s.ending ≡ Ending.has_more
      → s'.ending ≡ Ending.has_more
  ended_so s s' e h = ap (λ (x : Served L). x.ending) (eq_of_some e) ∙ h

  answer-Went :
      (go_on : Connection → L → Option (Served L)) (c : Connection) (m : Machine) (a : Bool × L)
      (s : Served L)
      → answer allow walk router now go_on (store m c) a ≡ some s
      → s.ending ≡ Ending.has_more
      → Went go_on m s
  unfolding handled respond append_unsent_data Parser.reset
  answer-Went go_on c m (false, l) s e h = cc (ended_so s _ e h)
  answer-Went go_on c m (true, l) s e h =
      elim (Bool-cases (handled allow walk router now m.request).close_after_send) [
        | inl closes ↦ cc (ended_so s _ (rw closes at e) h)
        | inr keeps ↦ (_, l, rw keeps at e, refl, refl)
      ]

  after_parse-Went :
      (go_on : Connection → L → Option (Served L)) (c : Connection) (l : L) (r : ParseResult)
      (m : Machine) (s : Served L)
      → after_parse allow walk router now go_on c l (some (r, m)) ≡ some s
      → s.ending ≡ Ending.has_more
      → (r ≡ ParseResult.success) × Went go_on m s
  after_parse-Went go_on c l ParseResult.incomplete m s e h = cc (ended_so s _ e h)
  after_parse-Went go_on c l ParseResult.error m s e h = cc (ended_so s _ e h)
  after_parse-Went go_on c l ParseResult.success m s e h =
      (refl, answer-Went go_on c m (allow c.client_ip l) s e h)

  round-Went :
      (rounds : ℕ) (c : Connection) (l : L) (s : Served L)
      → serve allow walk router now (suc rounds) c l ≡ some s
      → s.ending ≡ Ending.has_more
      → (m : Machine) × (parse (machine_of c) ≡ some (ParseResult.success, m))
        × Went (serve allow walk router now rounds) m s
  unfolding serve
  round-Went rounds c l s e h =
      let (r, m, p) = parse_total (machine_of c) in
      elim (Bool-cases (is_empty c.read_buffer)) [
        | inl nothing ↦ cc (ended_so s _ (rw nothing at e) h)
        | inr some_left ↦
            let (good, went) =
              after_parse-Went (serve allow walk router now rounds) c l r m s
                (rw (some_left, p) at e) h in
            (m, p ∙ ap (λ q. some (q, m)) good, went)
      ]

  fresh_shrinks :
      (rounds : ℕ) (c : Connection) (l : L) (s : Served L)
      → c.parser.m_state ≡ State.request_line
      → serve allow walk router now rounds c l ≡ some s
      → s.ending ≡ Ending.has_more
      → length s.connection.read_buffer + rounds ≤ length c.read_buffer
  unfolding serve
  fresh_shrinks zero c l s first e h =
      omega (arith, ap (λ (x : Served L). length x.connection.read_buffer) (eq_of_some e))
  fresh_shrinks (suc rounds) c l s first e h =
      let (m, p, (c', l', e', same, first')) = round-Went rounds c l s e h in
      omega (
        arith,
        parse-success-shorter (machine_of c) m first p,
        ap length same,
        fresh_shrinks rounds c' l' s first' e' h,
      )

  -- Every round but the first takes a byte at least.
  pub serve_shrinks :
      (rounds : ℕ) (c : Connection) (l : L) (s : Served L)
      → serve allow walk router now (suc rounds) c l ≡ some s
      → s.ending ≡ Ending.has_more
      → length s.connection.read_buffer + rounds ≤ length c.read_buffer
  serve_shrinks rounds c l s e h =
      let (m, p, (c', l', e', same, first)) = round-Went rounds c l s e h in
      omega (
        arith,
        length-Suffix m.read_buffer c.read_buffer (parse-Suffix (machine_of c) m _ p),
        ap length same,
        fresh_shrinks rounds c' l' s first e' h,
      )
