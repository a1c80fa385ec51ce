-- ===== src/Http/Parser/Pause.antt =====
-- Reading in pieces: `parse` paused by `Incomplete` goes on as if all the bytes had been there.
use c_http_1_1_server.Base.{
  ℕ, zero, suc, ◌<◌, ◌≡◌, inl, inr, refl, ap, ◌∙◌, Option, some, eq_of_some, arith, Bytes,
}
use c_http_1_1_server.Http.Parser.{Machine, ParseResult, continue, return, step, loop, parse}
use c_http_1_1_server.Http.Parser.Total.{measure, step_shrinks, Step-cases, loop_fuel, enough}
use c_http_1_1_server.Http.Parser.Resume.{append, step-Resumes}

-- What a run that ends with `r` at `m'` says of the run with more bytes, at fuel `g`.
abbrev Continues : ParseResult → ℕ → Machine → Machine → Bytes → Type 0
Continues ParseResult.error g m m' more = Unit {0}
Continues ParseResult.success g m m' more =
    loop g (append m more) ≡ some (ParseResult.success, append m' more)
Continues ParseResult.incomplete g m m' more =
    (h : ℕ) → measure (append m' more) < h → loop g (append m more) ≡ loop h (append m' more)

Continues-return :
    (r : ParseResult) (g : ℕ) (m m' : Machine) (more : Bytes)
    → step m ≡ return r m'
    → measure (append m more) < g
    → Continues r g m m' more
unfolding loop
Continues-return r zero m m' more e k = absurd (omega arith)
Continues-return ParseResult.error (suc g) m m' more e k = tt
Continues-return ParseResult.success (suc g) m m' more e k =
    elim (step-Resumes m.parser.m_state m more refl) [
      | inl wait ↦ cc
      | inr (inl bad) ↦ cc (rw e at bad)
      | inr (inr (same, _)) ↦ rw (same, loop) (rw e)
    ]
Continues-return ParseResult.incomplete (suc g) m m' more e k =
    elim (step-Resumes m.parser.m_state m more refl) [
      | inl wait ↦
          let same : m ≡ m' = cc in
          λ h big. rw (← same) (loop_fuel (suc g) h (append m more) k (rw (← same) at big))
      | inr (inl bad) ↦ cc (rw e at bad)
      | inr (inr (_, active)) ↦ absurd (rw e at active refl)
    ]

Continues-continue :
    (r : ParseResult) (g : ℕ) (m n m' : Machine) (more : Bytes)
    → step (append m more) ≡ continue (append n more)
    → Continues r g n m' more
    → Continues r (suc g) m m' more
unfolding loop
Continues-continue ParseResult.error g m n m' more e c = tt
Continues-continue ParseResult.success g m n m' more e c = rw (e, loop) c
Continues-continue ParseResult.incomplete g m n m' more e c = λ h big. rw (e, loop) (c h big)

pair_return :
    (q r : ParseResult) (n m : Machine)
    → ◌≡◌ {A = ParseResult × Machine} (q, n) (r, m)
    → return q n ≡ return r m
pair_return q r n m e = ap (λ (p : ParseResult × Machine). return p.0 p.1) e

loop-Continues :
    (fuel g : ℕ) (m m' : Machine) (r : ParseResult) (more : Bytes)
    → loop fuel m ≡ some (r, m')
    → measure (append m more) < g
    → Continues r g m m' more
unfolding loop
loop-Continues zero g m m' r more e k = cc
loop-Continues (suc fuel) zero m m' r more e k = absurd (omega arith)
loop-Continues (suc fuel) (suc g) m m' r more e k = elim (Step-cases (step m)) [
  | inl (n, s) ↦ elim (step-Resumes m.parser.m_state m more refl) [
    | inl wait ↦ cc
    | inr (inl bad) ↦ absurd (rw s at bad)
    | inr (inr (same, _)) ↦
        let go : step (append m more) ≡ continue (append n more) = rw s at same in
        let less = step_shrinks m.parser.m_state (append m more) (append n more) refl go in
        Continues-continue r g m n m' more go
          (loop-Continues fuel g n m' r more (rw (s, loop) at e) (omega arith))
  ]
  | inr (q, n, s) ↦
      let ended : ◌≡◌ {A = Option (ParseResult × Machine)} (some (q, n)) (some (r, m')) =
        rw (s, loop) at e in
      let done : step m ≡ return r m' = s ∙ pair_return q r n m' (eq_of_some ended) in
      Continues-return r (suc g) m m' more done k
]

-- Parsing that paused with `Incomplete` and goes on when more bytes are there gives the result, the
-- request and the rest of the buffer that one call on all the bytes gives.
pub parse-resume :
    (m m' : Machine) (more : Bytes)
    → parse m ≡ some (ParseResult.incomplete, m')
    → parse (append m more) ≡ parse (append m' more)
unfolding parse
parse-resume m m' more e =
    loop-Continues _ _ m m' ParseResult.incomplete more e (enough (append m more)) _
      (enough (append m' more))

-- A complete request is parsed the same, with what follows it left in the buffer.
pub parse-success-append :
    (m m' : Machine) (more : Bytes)
    → parse m ≡ some (ParseResult.success, m')
    → parse (append m more) ≡ some (ParseResult.success, append m' more)
unfolding parse
parse-success-append m m' more e =
    loop-Continues _ _ m m' ParseResult.success more e (enough (append m more))
