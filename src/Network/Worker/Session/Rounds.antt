-- ===== src/Network/Worker/Session/Rounds.antt =====
-- The rounds of the parse loop, whenever they are made.
use c_http_1_1_server.Base.{
  ℕ, zero, suc, ◌≤◌, ◌≡◌, refl, ap, ◌∙◌, arith, Bool, true, false, List, [], ◌∷◌, ◌++◌, some, Bytes,
  is_empty, if◌then◌else◌,
}
use c_http_1_1_server.Http.Router.{HttpRouter}
use c_http_1_1_server.Http.Parser.{Machine, ParseResult, parse}
use c_http_1_1_server.Network.Connection.{Connection, append_unsent_data}
use c_http_1_1_server.Network.Worker.{
  Ending, Served, machine_of, respond, handled, next_request, store, answer, after_parse, serve,
  bad_request, too_many_requests,
}
use c_http_1_1_server.Network.Worker.Timeless.{seen, timeless, serve-timeless}
use c_http_1_1_server.Network.Worker.Session.{Yields}

pub not_empty_append : (xs ys : Bytes) → is_empty ys ≡ false → is_empty (xs ++ ys) ≡ false
not_empty_append [] ys h = h
not_empty_append (x ∷ xs) ys h = refl

pub empty_append : (xs ys : Bytes) → is_empty xs ≡ false → is_empty (xs ++ ys) ≡ false
empty_append [] ys h = absurd cc
empty_append (x ∷ xs) ys h = refl

module _ {L : Type 0} (allow : Bytes → L → Bool × L)
    (walk : List (Bytes × Bytes) → List (Bytes × Bytes)) (router : HttpRouter) where
  abbrev pub view : Served L → Ending × Bytes × L
  view s = (s.ending, s.connection.write_buffer, s.limiter)

  at_least :
      (k : ℕ) (c : Connection) (l : L) (v : Ending × Bytes × L) (r : ParseResult) (m : Machine)
      → is_empty c.read_buffer ≡ false
      → parse (machine_of c) ≡ some (r, m)
      → ((now g : ℕ)
          → k ≤ g
          → seen
              (after_parse allow walk router now (serve allow walk router now g) c l (some (r, m)))
            ≡ some v)
      → (now g : ℕ) → suc k ≤ g
      → seen (serve allow walk router now g c l) ≡ some v
  unfolding serve
  at_least k c l v r m some_left e f now zero h = absurd (omega arith)
  at_least k c l v r m some_left e f now (suc g) h = rw (some_left, e) (f now g (omega arith))

  -- What a round leads to.
  pub Yields-round :
      (k : ℕ) (c : Connection) (l : L) (v : Ending × Bytes × L) (r : ParseResult) (m : Machine)
      → is_empty c.read_buffer ≡ false
      → parse (machine_of c) ≡ some (r, m)
      → ((now g : ℕ)
          → k ≤ g
          → seen
              (after_parse allow walk router now (serve allow walk router now g) c l (some (r, m)))
            ≡ some v)
      → Yields allow walk router c l v
  unfolding Yields
  Yields-round k c l v r m some_left e f = (suc k, at_least k c l v r m some_left e f)

  -- The handler's response to a request that the parser has taken from the buffer.
  abbrev pub answered : ℕ → Connection → Machine → Connection
  answered now c m =
      next_request
        (respond allow walk router now (handled allow walk router now m.request) (store m c))

  pub Yields-next :
      (c c' : Connection) (l l' : L) (v : Ending × Bytes × L) (m : Machine)
      → is_empty c.read_buffer ≡ false
      → parse (machine_of c) ≡ some (ParseResult.success, m)
      → allow c.client_ip l ≡ (true, l')
      → (handled allow walk router 0 m.request).close_after_send ≡ false
      → timeless (answered 0 c m) ≡ timeless c'
      → Yields allow walk router c' l' v
      → Yields allow walk router c l v
  unfolding Yields handled respond append_unsent_data
  Yields-next c c' l l' v m some_left e allowed keeps same (k, y) =
      Yields-round k c l v ParseResult.success m some_left e (λ now g h.
        ap (λ a. seen (answer allow walk router now (serve allow walk router now g) (store m c) a))
          allowed
        ∙ ap
            (λ b. seen (
              if b
              then some (record {
                ending = Ending.close_after_response;
                connection = answered now c m;
                limiter = l';
              })
              else serve allow walk router now g (answered now c m) l'))
            keeps
        ∙ serve-timeless allow walk router now now g (answered now c m) c' l' same
        ∙ y now g h)

  pub Yields-close :
      (c : Connection) (l l' : L) (m : Machine)
      → is_empty c.read_buffer ≡ false
      → parse (machine_of c) ≡ some (ParseResult.success, m)
      → allow c.client_ip l ≡ (true, l')
      → (handled allow walk router 0 m.request).close_after_send ≡ true
      → Yields allow walk router c l
          (Ending.close_after_response, (answered 0 c m).write_buffer, l')
  unfolding Yields handled respond append_unsent_data
  Yields-close c l l' m some_left e allowed closes =
      Yields-round 0 c l _ ParseResult.success m some_left e (λ now g h.
        ap (λ a. seen (answer allow walk router now (serve allow walk router now g) (store m c) a))
          allowed
        ∙ ap
            (λ b. seen (
              if b
              then some (record {
                ending = Ending.close_after_response;
                connection = answered now c m;
                limiter = l';
              })
              else serve allow walk router now g (answered now c m) l'))
            closes)

  -- The refusal of the rate limiter.
  pub Yields-limited :
      (c : Connection) (l l' : L) (m : Machine)
      → is_empty c.read_buffer ≡ false
      → parse (machine_of c) ≡ some (ParseResult.success, m)
      → allow c.client_ip l ≡ (false, l')
      → Yields allow walk router c l
          (Ending.refused, (respond allow walk router 0 too_many_requests c).write_buffer, l')
  unfolding Yields respond append_unsent_data
  Yields-limited c l l' m some_left e allowed =
      Yields-round 0 c l _ ParseResult.success m some_left e (λ now g h.
        ap (λ a. seen (answer allow walk router now (serve allow walk router now g) (store m c) a))
          allowed)

  -- The answer to bytes that are no request.
  pub Yields-refused :
      (c : Connection) (l : L) (m : Machine)
      → is_empty c.read_buffer ≡ false
      → parse (machine_of c) ≡ some (ParseResult.error, m)
      → Yields allow walk router c l
          (Ending.refused, (respond allow walk router 0 bad_request c).write_buffer, l)
  unfolding Yields respond append_unsent_data
  Yields-refused c l m some_left e =
      Yields-round 0 c l _ ParseResult.error m some_left e (λ now g h. refl)
