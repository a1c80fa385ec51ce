-- ===== src/Network/Worker/Session/Resume.antt =====
-- A run of the parse loop, when more bytes are in the buffer.
use c_http_1_1_server.Base.{
  ℕ, zero, suc, ◌≤◌, ◌≡◌, refl, sym, ap, ◌∙◌, subst, arith, Bool, true, false, List, [], Option,
  some, Bool-cases, inl, inr, Bytes, is_empty, if◌then◌else◌,
}
use c_http_1_1_server.Http.Router.{HttpRouter}
use c_http_1_1_server.Http.Parser.{Machine, ParseResult, parse}
use c_http_1_1_server.Http.Parser.Total.{parse_total}
use c_http_1_1_server.Http.Parser.Resume.{append}
use c_http_1_1_server.Http.Parser.Suffix.{Suffix-trans, parse-Suffix}
use c_http_1_1_server.Http.Parser.Refuse.{parse-error-append}
use c_http_1_1_server.Http.Parser.Pause.{parse-resume, parse-success-append}
use c_http_1_1_server.Network.Connection.{Connection, append_unsent_data}
use c_http_1_1_server.Network.Worker.{
  Ending, Served, machine_of, respond, handled, store, answer, after_parse, serve, bad_request,
  too_many_requests,
}
use c_http_1_1_server.Network.Worker.Timeless.{seen}
use c_http_1_1_server.Network.Worker.Session.{deliver, Yields}
use c_http_1_1_server.Network.Worker.Session.Rounds.{
  not_empty_append, empty_append, answered, Yields-round, Yields-next, Yields-close, Yields-limited,
  Yields-refused,
}
use c_http_1_1_server.Network.Worker.Session.Settled.{Resumes, Settled-next, Resumed-next}

module _ {L : Type 0} (allow : Bytes → L → Bool × L)
    (walk : List (Bytes × Bytes) → List (Bytes × Bytes)) (router : HttpRouter) where
  one_round :
      (now g : ℕ) (c : Connection) (l : L) (r : ParseResult) (m : Machine)
      → is_empty c.read_buffer ≡ false
      → parse (machine_of c) ≡ some (r, m)
      → serve allow walk router now (suc g) c l
        ≡ after_parse allow walk router now (serve allow walk router now g) c l (some (r, m))
  unfolding serve
  one_round now g c l r m some_left e = rw (some_left, e) refl

  -- What the parser has left is all that a round keeps of its buffer and its request.
  after_parse-store :
      (now : ℕ) (go_on : Connection → L → Option (Served L)) (more : Bytes) (n : Machine)
      (c : Connection) (l : L) (r : ParseResult) (m : Machine)
      → after_parse allow walk router now go_on (store n c) l (some (r, m))
        ≡ after_parse allow walk router now go_on (deliver more c) l (some (r, m))
  after_parse-store now go_on more n c l ParseResult.success m = refl
  after_parse-store now go_on more n c l ParseResult.incomplete m = refl
  after_parse-store now go_on more n c l ParseResult.error m = refl

  -- A run that waits for the rest of a request.
  Yields-resume :
      (more : Bytes) (c : Connection) (l : L) (m : Machine)
      → is_empty c.read_buffer ≡ false
      → is_empty more ≡ false
      → parse (machine_of c) ≡ some (ParseResult.incomplete, m)
      → (v : Ending × Bytes × L) → Yields allow walk router (deliver more (store m c)) l v
      → Yields allow walk router (deliver more c) l v
  unfolding Yields
  Yields-resume more c l m some_left arrived e v (k, y) =
      let n = append m more in
      let (r, m', whole) = parse_total n in
      Yields-round allow walk router k (deliver more c) l v r m'
        (empty_append c.read_buffer more some_left) (parse-resume (machine_of c) m more e ∙ whole)
        (λ now g h.
          ap seen (
            sym (after_parse-store now (serve allow walk router now g) more n c l r m')
            ∙ sym (
                one_round now g (store n c) l r m' (not_empty_append m.read_buffer more arrived)
                  whole))
          ∙ y now (suc g) (omega arith))

  empty_round :
      (now g : ℕ) (c : Connection) (l : L)
      → is_empty c.read_buffer ≡ true
      → 1 ≤ g
      → seen (serve allow walk router now g c l) ≡ some (Ending.emptied, c.write_buffer, l)
  unfolding serve
  empty_round now zero c l nothing h = absurd (omega arith)
  empty_round now (suc g) c l nothing h =
      ap
        (λ b. seen (
          if b
          then some (record { ending = Ending.emptied; connection = c; limiter = l })
          else after_parse allow walk router now (serve allow walk router now g) c l
              (parse (machine_of c))))
        nothing

  Yields-empty :
      (c : Connection) (l : L)
      → is_empty c.read_buffer ≡ true
      → Yields allow walk router c l (Ending.emptied, c.write_buffer, l)
  unfolding Yields
  Yields-empty c l nothing = (1, λ now g h. empty_round now g c l nothing h)

  module _ (more : Bytes) (arrived : is_empty more ≡ false) where
    GoesOn : (Connection → L → Option (Served L)) → Type 0
    GoesOn go_on = (c : Connection) (l : L) → Resumes allow walk router more c l (go_on c l)

    answer-Resumes :
        (now : ℕ) (go_on : Connection → L → Option (Served L)) (c : Connection) (l : L)
        (m : Machine) (a : Bool × L)
        → is_empty c.read_buffer ≡ false
        → parse (machine_of c) ≡ some (ParseResult.success, m)
        → allow c.client_ip l ≡ a
        → GoesOn go_on
        → Resumes allow walk router more c l (answer allow walk router now go_on (store m c) a)
    unfolding GoesOn handled respond append_unsent_data
    answer-Resumes now go_on c l m (false, l') some_left e allowed g = (
      record {
        ending = Ending.refused;
        connection = respond allow walk router now too_many_requests (store m c);
        limiter = l';
      },
      refl,
      Yields-limited allow walk router c l l' m some_left e allowed,
      λ short.
          Yields-limited allow walk router (deliver more c) l l' (append m more)
            (empty_append c.read_buffer more some_left)
            (parse-success-append (machine_of c) m more e) allowed,
      parse-Suffix (machine_of c) m _ e,
    )
    answer-Resumes now go_on c l m (true, l') some_left e allowed g =
        let res = handled allow walk router 0 m.request in
        let c' = answered allow walk router now c m in
        let gone : Served L = record {
          ending = Ending.close_after_response;
          connection = c';
          limiter = l';
        } in
        let others = empty_append c.read_buffer more some_left in
        let e' = parse-success-append (machine_of c) m more e in
        elim (Bool-cases res.close_after_send) [
          | inl closes ↦
              subst (λ b. Resumes allow walk router more c l (if b then some gone else go_on c' l'))
                (sym closes)
                (
                  gone,
                  refl,
                  Yields-close allow walk router c l l' m some_left e allowed closes,
                  Yields-close allow walk router (deliver more c) l l' (append m more) others e'
                      allowed closes,
                  parse-Suffix (machine_of c) m _ e,
                )
          | inr keeps ↦
              let (s, p, settled, resumed, shorter) = g c' l' in
              let taken = parse-Suffix (machine_of c) m _ e in
              subst (λ b. Resumes allow walk router more c l (if b then some gone else go_on c' l'))
                (sym keeps)
                (
                  s,
                  p,
                  Settled-next allow walk router c c' l l' s s.ending
                      (λ v z.
                        Yields-next allow walk router c c' l l' v m some_left e allowed keeps refl
                          z)
                      settled,
                  Resumed-next allow walk router more c c' l l' s s.ending taken
                      (λ v z.
                        Yields-next allow walk router (deliver more c) (deliver more c') l l' v
                          (append m more) others e' allowed keeps refl z)
                      resumed,
                  Suffix-trans s.connection.read_buffer m.read_buffer c.read_buffer shorter taken,
                )
        ]

    after_parse-Resumes :
        (now : ℕ) (go_on : Connection → L → Option (Served L)) (c : Connection) (l : L)
        (r : ParseResult) (m : Machine)
        → is_empty c.read_buffer ≡ false
        → parse (machine_of c) ≡ some (r, m)
        → GoesOn go_on
        → Resumes allow walk router more c l
            (after_parse allow walk router now go_on c l (some (r, m)))
    unfolding respond append_unsent_data
    after_parse-Resumes now go_on c l ParseResult.success m some_left e g =
        answer-Resumes now go_on c l m (allow c.client_ip l) some_left e refl g
    after_parse-Resumes now go_on c l ParseResult.error m some_left e g = (
      record {
        ending = Ending.refused;
        connection = respond allow walk router now bad_request (store m c);
        limiter = l;
      },
      refl,
      Yields-refused allow walk router c l m some_left e,
      λ short.
          let (n, e') = parse-error-append (machine_of c) m more e short in
          Yields-refused allow walk router (deliver more c) l n
            (empty_append c.read_buffer more some_left) e',
      parse-Suffix (machine_of c) m _ e,
    )
    after_parse-Resumes now go_on c l ParseResult.incomplete m some_left e g = (
      record { ending = Ending.incomplete; connection = store m c; limiter = l },
      refl,
      Yields-round allow walk router 0 c l _ ParseResult.incomplete m some_left e (λ now g h. refl),
      Yields-resume more c l m some_left arrived e,
      parse-Suffix (machine_of c) m _ e,
    )

    pub serve-Resumes :
        (now rounds : ℕ) (c : Connection) (l : L)
        → Resumes allow walk router more c l (serve allow walk router now rounds c l)
    unfolding serve GoesOn
    serve-Resumes now zero c l = (
      record { ending = Ending.has_more; connection = c; limiter = l },
      refl,
      λ v y. y,
      λ v y. y,
      ([], refl),
    )
    serve-Resumes now (suc rounds) c l =
        let (r, m, e) = parse_total (machine_of c) in
        elim (Bool-cases (is_empty c.read_buffer)) [
          | inl nothing ↦ rw nothing (
            record { ending = Ending.emptied; connection = c; limiter = l },
            refl,
            Yields-empty c l nothing,
            λ v y. y,
            ([], refl),
          )
          | inr some_left ↦
              rw (some_left, e)
                (after_parse-Resumes now (serve allow walk router now rounds) c l r m some_left e
                  (serve-Resumes now rounds))
        ]
