-- ===== src/Network/Worker/Session/Turns.antt =====
-- The parse loops of the tasks that follow one another while requests may be left.
use c_http_1_1_server.Base.{
  ℕ, zero, suc, ◌<◌, ◌≡◌, ◌≢◌, refl, sym, ap, subst, ◌∙◌, arith, Bool, false, List, Option, some,
  Bytes, is_empty, length,
}
use c_http_1_1_server.Http.Router.{HttpRouter}
use c_http_1_1_server.Http.Parser.Suffix.{Suffix, Suffix-trans}
use c_http_1_1_server.Network.Connection.{Connection}
use c_http_1_1_server.Network.Worker.{Ending, Served, max_rounds}
use c_http_1_1_server.Network.Worker.Session.{again, serve_turns}
use c_http_1_1_server.Network.Worker.Session.Shrink.{serve_shrinks}
use c_http_1_1_server.Network.Worker.Session.Settled.{Settled, Resumed, Settled-next, Resumed-next}
use c_http_1_1_server.Network.Worker.Session.Resume.{serve-Resumes}

module _ {L : Type 0} (allow : Bytes → L → Bool × L)
    (walk : List (Bytes × Bytes) → List (Bytes × Bytes)) (router : HttpRouter) (more : Bytes)
    (arrived : is_empty more ≡ false) (now : ℕ) where
  -- As a run of one loop, and with no rounds that are used up.
  abbrev TurnsResume : Connection → L → Option (Served L) → Type 0
  TurnsResume c l o =
      (s : Served L) × (o ≡ some s)
      × (s.ending ≢ Ending.has_more)
      × Settled allow walk router c l s s.ending
      × Resumed allow walk router more c l s s.ending
      × Suffix s.connection.read_buffer c.read_buffer

  ends :
      (c : Connection) (l : L) (s : Served L) (e : Ending)
      → s.ending ≡ e
      → e ≢ Ending.has_more
      → Settled allow walk router c l s e
      → Resumed allow walk router more c l s e
      → Suffix s.connection.read_buffer c.read_buffer
      → TurnsResume c l (some s)
  ends c l s e q regular settled resumed shorter = (
    s,
    refl,
    λ h. regular (sym q ∙ h),
    subst (λ x. Settled allow walk router c l s x) (sym q) settled,
    subst (λ x. Resumed allow walk router more c l s x) (sym q) resumed,
    shorter,
  )

  by_ending :
      (turns : ℕ) (c : Connection) (l : L) (s : Served L) (e : Ending)
      → s.ending ≡ e
      → Settled allow walk router c l s e
      → Resumed allow walk router more c l s e
      → Suffix s.connection.read_buffer c.read_buffer
      → (e ≡ Ending.has_more
          → TurnsResume s.connection s.limiter
              (serve_turns allow walk router now turns s.connection s.limiter))
      → TurnsResume c l (elim e [
        | Ending.emptied ↦ some s
        | Ending.incomplete ↦ some s
        | Ending.close_after_response ↦ some s
        | Ending.refused ↦ some s
        | Ending.has_more ↦ serve_turns allow walk router now turns s.connection s.limiter
      ])
  by_ending turns c l s Ending.emptied q settled resumed shorter go =
      ends c l s Ending.emptied q (λ h. cc) settled resumed shorter
  by_ending turns c l s Ending.incomplete q settled resumed shorter go =
      ends c l s Ending.incomplete q (λ h. cc) settled resumed shorter
  by_ending turns c l s Ending.close_after_response q settled resumed shorter go =
      ends c l s Ending.close_after_response q (λ h. cc) settled resumed shorter
  by_ending turns c l s Ending.refused q settled resumed shorter go =
      ends c l s Ending.refused q (λ h. cc) settled resumed shorter
  by_ending turns c l s Ending.has_more q settled resumed shorter go =
      let (s', e, regular, settled', resumed', shorter') = go refl in
      let d = s.connection in
      (
        s',
        e,
        regular,
        Settled-next allow walk router c d l s.limiter s' s'.ending settled settled',
        Resumed-next allow walk router more c d l s.limiter s' s'.ending shorter resumed resumed',
        Suffix-trans s'.connection.read_buffer d.read_buffer c.read_buffer shorter' shorter,
      )

  -- More turns than bytes are enough.
  pub serve_turns-Resumes :
      (turns : ℕ) (c : Connection) (l : L)
      → length c.read_buffer < turns
      → TurnsResume c l (serve_turns allow walk router now turns c l)
  unfolding serve_turns
  serve_turns-Resumes zero c l enough = absurd (omega arith)
  serve_turns-Resumes (suc turns) c l enough =
      let (s, p, settled, resumed, shorter) =
        serve-Resumes allow walk router more arrived now max_rounds c l in
      let (s', e, regular, settled', resumed', shorter') =
        by_ending turns c l s s.ending refl settled resumed shorter (λ q.
          serve_turns-Resumes turns s.connection s.limiter
            (omega (arith, serve_shrinks allow walk router now 50 c l s p q))) in
      (
        s',
        ap (again (serve_turns allow walk router now turns)) p ∙ e,
        regular,
        settled',
        resumed',
        shorter',
      )
