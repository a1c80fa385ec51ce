-- ===== src/Network/Worker/Answers.antt =====
-- What the parse loop adds to a connection.
use c_http_1_1_server.Base.{
  ℕ, zero, suc, ◌≡◌, refl, sym, ap, ◌∙◌, Bool, true, false, Bool-cases, inl, inr, List, [], ◌∷◌,
  ◌++◌, append-nil, append_assoc, Option, some, if◌then◌else◌, Bytes, is_empty,
}
use c_http_1_1_server.Http.Response.{HttpResponse}
use c_http_1_1_server.Http.Parser.{Machine, ParseResult}
use c_http_1_1_server.Http.Parser.Total.{parse_total}
use c_http_1_1_server.Http.Encoder.{encode}
use c_http_1_1_server.Http.Router.{HttpRouter}
use c_http_1_1_server.Network.Connection.{Connection, append_unsent_data}
use c_http_1_1_server.Network.Worker.{
  Ending, Served, machine_of, store, next_request, respond, handled, answer, after_parse, serve,
  too_many_requests, bad_request,
}
use c_http_1_1_server.Network.Worker.Promised.{
  Found, renewed, found_first, found, response_for, closes_after, response_for-closes, owed_first,
  owed, encoded,
}

-- The connection is that of `c`, with more bytes behind those that waited to be sent.
pub record Extends (c after : Connection) : Type 0 where
  pub more : Bytes
  pub queued : after.write_buffer ≡ c.write_buffer ++ more
  pub same_fd : after.fd ≡ c.fd
  pub same_ip : after.client_ip ≡ c.client_ip

module _ {L : Type 0} (allow : Bytes → L → Bool × L)
    (walk : List (Bytes × Bytes) → List (Bytes × Bytes)) (router : HttpRouter) (now : ℕ) where
  -- A result of the loop: the connection, with just these responses queued.
  abbrev Answers : Connection → List HttpResponse → Option (Served L) → Type 0
  Answers c rs o =
      (s : Served L) × (o ≡ some s)
      × (s.connection.write_buffer ≡ c.write_buffer ++ encoded walk rs)
      × (s.connection.fd ≡ c.fd)
      × (s.connection.client_ip ≡ c.client_ip)

  -- The rest of the loop answers what is found behind the first request.
  abbrev GoesOn : (Connection → L → Option (Served L)) → (Machine → List Found) → Type 0
  GoesOn go_on others =
      (c : Connection) (l : L)
      → Answers c (owed allow router c.client_ip (others (machine_of c)) l) (go_on c l)

  queued_one :
      (c : Connection) (r : HttpResponse)
      → c.write_buffer ++ (encode walk r false).0 ≡ c.write_buffer ++ encoded walk (r ∷ [])
  unfolding encoded
  queued_one c r = ap (◌++◌ c.write_buffer) (sym (append-nil (encode walk r false).0))

  -- The loop leaves behind the response `r`, or goes on, as the response says.
  either-Answers :
      (closes closes' : Bool) (c after : Connection) (r : HttpResponse) (rs : List HttpResponse)
      (s : Served L) (o : Option (Served L))
      → closes ≡ closes'
      → s.connection ≡ after
      → after.write_buffer ≡ c.write_buffer ++ (encode walk r false).0
      → after.fd ≡ c.fd
      → after.client_ip ≡ c.client_ip
      → Answers after rs o
      → Answers c (r ∷ (if closes' then [] else rs)) (if closes then some s else o)
  unfolding encoded
  either-Answers true true c after r rs s o e same w fd ip x = (
    s,
    refl,
    ap (λ d. d.write_buffer) same ∙ w ∙ queued_one c r,
    ap (λ d. d.fd) same ∙ fd,
    ap (λ d. d.client_ip) same ∙ ip,
  )
  either-Answers false false c after r rs s o e same w fd ip (s', p, w', fd', ip') = (
    s',
    p,
    w'
        ∙ ap (λ b. b ++ encoded walk rs) w
        ∙ append_assoc c.write_buffer (encode walk r false).0 (encoded walk rs),
    fd' ∙ fd,
    ip' ∙ ip,
  )
  either-Answers true false c after r rs s o e same w fd ip x = absurd cc
  either-Answers false true c after r rs s o e same w fd ip x = absurd cc

  answer-Answers :
      (go_on : Connection → L → Option (Served L)) (others : Machine → List Found) (c : Connection)
      (m : Machine) (a : Bool × L)
      → GoesOn go_on others
      → Answers c
          (owed_first allow router
            (λ l. owed allow router c.client_ip (others (renewed m)) l)
            m.request
            a)
          (answer allow walk router now go_on (store m c) a)
  unfolding respond append_unsent_data handled
  answer-Answers go_on others c m (false, l) g = (
    record {
      ending = Ending.refused;
      connection = respond allow walk router now too_many_requests (store m c);
      limiter = l;
    },
    refl,
    queued_one c too_many_requests,
    refl,
    refl,
  )
  answer-Answers go_on others c m (true, l) g =
      let r = response_for router m.request in
      let after = next_request (respond allow walk router now r (store m c)) in
      either-Answers r.close_after_send (closes_after router m.request) c after r
        (owed allow router c.client_ip (others (renewed m)) l)
        (record { ending = Ending.close_after_response; connection = after; limiter = l })
        (go_on after l) (response_for-closes router m.request) refl refl refl refl (g after l)

  after_parse-Answers :
      (go_on : Connection → L → Option (Served L)) (others : Machine → List Found) (c : Connection)
      (l : L) (r : ParseResult) (m : Machine)
      → GoesOn go_on others
      → Answers c
          (owed allow router c.client_ip (found_first others (some (r, m))) l)
          (after_parse allow walk router now go_on c l (some (r, m)))
  unfolding respond append_unsent_data owed encoded
  after_parse-Answers go_on others c l ParseResult.incomplete m g = (
    record { ending = Ending.incomplete; connection = store m c; limiter = l },
    refl,
    sym (append-nil c.write_buffer),
    refl,
    refl,
  )
  after_parse-Answers go_on others c l ParseResult.error m g = (
    record {
      ending = Ending.refused;
      connection = respond allow walk router now bad_request (store m c);
      limiter = l;
    },
    refl,
    queued_one c bad_request,
    refl,
    refl,
  )
  after_parse-Answers go_on others c l ParseResult.success m g =
      answer-Answers go_on others c m (allow c.client_ip l) g

  -- The loop always returns, whatever bytes the client sent, whatever the handlers answer and
  -- whatever the rate limiter allows. Behind the bytes that were waiting to be sent, none of which is
  -- lost, stand exactly the encoded responses to what as many calls of the parser find in the buffer:
  -- the finalized response of its handler for each request, in order, up to the first behind which
  -- the connection closes; a 429 in place of the first that the rate limiter refuses; a 400 for bytes
  -- that are no request. The connection keeps its descriptor and address.
  pub serve-responses :
      (rounds : ℕ) (c : Connection) (l : L)
      → (s : Served L) × (serve allow walk router now rounds c l ≡ some s)
        × (s.connection.write_buffer
            ≡ c.write_buffer
              ++ encoded walk (owed allow router c.client_ip (found rounds (machine_of c)) l))
        × (s.connection.fd ≡ c.fd)
        × (s.connection.client_ip ≡ c.client_ip)
  unfolding serve found owed encoded
  serve-responses zero c l = (
    record { ending = Ending.has_more; connection = c; limiter = l },
    refl,
    sym (append-nil c.write_buffer),
    refl,
    refl,
  )
  serve-responses (suc rounds) c l =
      let (r, m, e) = parse_total (machine_of c) in
      elim (Bool-cases (is_empty c.read_buffer)) [
        | inl nothing ↦ rw nothing (
          record { ending = Ending.emptied; connection = c; limiter = l },
          refl,
          sym (append-nil c.write_buffer),
          refl,
          refl,
        )
        | inr some_left ↦
            rw (some_left, e)
              (after_parse-Answers (serve allow walk router now rounds) (found rounds) c l r m
                (serve-responses rounds))
      ]

  -- The loop returns with a connection that extends the one that it was given.
  pub serve-Answers :
      (rounds : ℕ) (c : Connection) (l : L)
      → (s : Served L) × (serve allow walk router now rounds c l ≡ some s) × Extends c s.connection
  serve-Answers rounds c l =
      let (s, e, w, fd, ip) = serve-responses rounds c l in
      (s, e, record { more = _; queued = w; same_fd = fd; same_ip = ip })
