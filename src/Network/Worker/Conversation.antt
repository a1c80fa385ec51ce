-- ===== src/Network/Worker/Conversation.antt =====
-- What a client reads of the responses that the parse loop queues.
use mathlib.Core.List.{Permᴰ}
use c_http_1_1_server.Base.{
  ℕ, zero, suc, ◌≤◌, ◌≡◌, refl, sym, ap, ◌∙◌, arith, Bool, true, false, List, [], ◌∷◌, map, ◌++◌,
  append_assoc, Option, some, length, if◌then◌else◌, Bytes, codes,
}
use c_http_1_1_server.Http.Request.{wants_keep_alive}
use c_http_1_1_server.Http.Response
use c_http_1_1_server.Http.Response.{HttpResponse, BodyType}
use c_http_1_1_server.Http.Encoder.{encode}
use c_http_1_1_server.Http.Router.{HttpRouter, route}
use c_http_1_1_server.Http.Client.{◌>>=◌, Reply, read_response}
use c_http_1_1_server.Http.Client.Answers.{
  fresh-IsWire, html-IsWire, set_status-IsWire, set_retry_after-IsWire, whole_reply,
  read_response-answer,
}
use c_http_1_1_server.Http.Client.Answers.{IsAnswer, finalize_for_connection-IsAnswer}
use c_http_1_1_server.Network.Connection.{Connection}
use c_http_1_1_server.Network.Worker.{Served, is_head, serve, too_many_requests}
use c_http_1_1_server.Network.Worker.Promised.{
  request, response_for, closes_after, owed_first, owed, encoded,
}
use c_http_1_1_server.Network.Worker.Answers.{serve-responses}
use c_http_1_1_server.Network.Worker.Pipeline.{Message, AllMessages, ready, requested, found-stream}

-- As many responses as the client has requests that are not HEAD, and the bytes behind them.
unfoldable pub read_responses : ℕ → Bytes → Option (List Reply × Bytes)
unfolding read_response
read_responses zero bytes = some ([], bytes)
read_responses (suc n) bytes = do
  (first, rest) ← read_response false bytes
  (others, rest') ← read_responses n rest
  some (first ∷ others, rest')

-- The refusal of the rate limiter is an answer too.
too_many_requests-IsAnswer : IsAnswer too_many_requests
unfolding too_many_requests Response.html Response.set_header Response.set_status Response.set_body
too_many_requests-IsAnswer = finalize_for_connection-IsAnswer false false (record {
  wire = html-IsWire (codes "<h1>429 Too Many Requests</h1>") (omega arith) (
      set_retry_after-IsWire (
        set_status-IsWire 429 (codes "Too Many Requests") (omega arith) (ground arith)
          fresh-IsWire));
  full = λ e. ground arith;
})

-- A client can read each of these.
AllReadable : List HttpResponse → Type 0
AllReadable [] = Unit {0}
AllReadable (r ∷ rs) = IsAnswer r × AllReadable rs

module _ (walk : List (Bytes × Bytes) → List (Bytes × Bytes))
    (same_entries : (m : List (Bytes × Bytes)) → Permᴰ m (walk m)) where
  -- The client reads these responses from these bytes, and leaves what follows.
  abbrev Reads : List HttpResponse → Bytes → Bytes → Type 0
  Reads rs bytes rest =
      read_responses (length rs) (bytes ++ rest) ≡ some (map (whole_reply walk) rs, rest)

  Reads-first :
      (r : HttpResponse) (rs : List HttpResponse) (bytes rest : Bytes)
      → IsAnswer r
      → Reads rs bytes rest
      → Reads (r ∷ rs) ((encode walk r false).0 ++ bytes) rest
  unfolding read_responses
  Reads-first r rs bytes rest a h =
      ap (read_responses (length (r ∷ rs))) (append_assoc (encode walk r false).0 bytes rest)
      ∙ ap
          (λ (o : Option (Reply × Bytes)). o >>= λ (first, rest).
            read_responses (length rs) rest >>= λ (others, rest'). some (first ∷ others, rest'))
          (read_response-answer walk r (bytes ++ rest) same_entries a)
      ∙ ap
          (λ (o : Option (List Reply × Bytes)).
            o >>= λ (others, rest'). some (whole_reply walk r ∷ others, rest'))
          h

  Reads-encoded :
      (rs : List HttpResponse) (rest : Bytes) → AllReadable rs → Reads rs (encoded walk rs) rest
  unfolding AllReadable encoded read_responses
  Reads-encoded [] rest a = refl
  Reads-encoded (r ∷ rs) rest (a, others) =
      Reads-first r rs (encoded walk rs) rest a (Reads-encoded rs rest others)

module _ (router : HttpRouter) where
  -- A request that is not HEAD, whose handler makes an answer that a client can read.
  pub record IsAnswered (m : Message) : Type 0 where
    pub no_head : is_head m.head.method ≡ false
    pub readable : IsAnswer (route (requested m) router)

  abbrev pub AllAnswered : List Message → Type 0
  AllAnswered [] = Unit {0}
  AllAnswered (m ∷ ms) = IsAnswered m × AllAnswered ms

  -- The client always wants to keep the connection, and no handler asks for a close.
  abbrev pub AllKept : List Message → Type 0
  AllKept [] = Unit {0}
  AllKept (m ∷ ms) = (closes_after router (requested m) ≡ false) × AllKept ms

  -- The handlers' responses to all of the requests.
  abbrev pub all_responses : List Message → List HttpResponse
  all_responses ms = map (λ m. response_for router (requested m)) ms

  length_all : (ms : List Message) → length (all_responses ms) ≡ length ms
  length_all [] = refl
  length_all (m ∷ ms) = ap suc (length_all ms)

module _ {L : Type 0} (allow : Bytes → L → Bool × L) (router : HttpRouter) where
  -- The responses to some requests of one client: those of the handlers, in the order of the
  -- requests, up to the first behind which the connection closes, or to the refusal of the rate
  -- limiter.
  abbrev pub responses : Bytes → List Message → L → List HttpResponse
  responses ip ms l = owed allow router ip (map (λ m. request (requested m)) ms) l

  unless-AllReadable :
      (b : Bool) (rs : List HttpResponse) → AllReadable rs → AllReadable (if b then [] else rs)
  unfolding AllReadable
  unless-AllReadable true rs a = tt
  unless-AllReadable false rs a = a

  owed_first-AllReadable :
      (others : L → List HttpResponse) (m : Message) (a : Bool × L)
      → IsAnswered router m
      → ((l : L) → AllReadable (others l))
      → AllReadable (owed_first allow router others (requested m) a)
  unfolding AllReadable
  owed_first-AllReadable others m (false, l) v h = (too_many_requests-IsAnswer, tt)
  owed_first-AllReadable others m (true, l) v h = (
    finalize_for_connection-IsAnswer (wants_keep_alive (requested m)) (is_head (requested m).method)
        v.readable,
    unless-AllReadable (closes_after router (requested m)) (others l) (h l),
  )

  responses-AllReadable :
      (ip : Bytes) (ms : List Message) (l : L)
      → AllAnswered router ms
      → AllReadable (responses ip ms l)
  unfolding AllReadable owed
  responses-AllReadable ip [] l v = tt
  responses-AllReadable ip (m ∷ ms) l (first, others) =
      owed_first-AllReadable (λ l'. responses ip ms l') m (allow ip l) first
        (λ l'. responses-AllReadable ip ms l' others)

  owed_first-kept :
      (others : L → List HttpResponse) (all : List HttpResponse) (m : Message) (a : Bool × L)
      → a.0 ≡ true
      → closes_after router (requested m) ≡ false
      → ((l : L) → others l ≡ all)
      → owed_first allow router others (requested m) a ≡ response_for router (requested m) ∷ all
  owed_first-kept others all m (false, l) allowed kept h = absurd cc
  owed_first-kept others all m (true, l) allowed kept h =
      ap (λ b. response_for router (requested m) ∷ (if b then [] else others l)) kept
      ∙ ap (◌∷◌ (response_for router (requested m))) (h l)

  -- With nothing refused and no close there is one for each.
  pub responses-kept :
      (ip : Bytes) (ms : List Message) (l : L)
      → ((k : L) → (allow ip k).0 ≡ true)
      → AllKept router ms
      → responses ip ms l ≡ all_responses router ms
  unfolding owed
  responses-kept ip [] l allowed kept = refl
  responses-kept ip (m ∷ ms) l allowed (first, others) =
      owed_first-kept (λ l'. responses ip ms l') (all_responses router ms) m (allow ip l)
        (allowed l) first (λ l'. responses-kept ip ms l' allowed others)

module _ {L : Type 0} (allow : Bytes → L → Bool × L)
    (walk : List (Bytes × Bytes) → List (Bytes × Bytes)) (router : HttpRouter) (now : ℕ)
    (same_entries : (m : List (Bytes × Bytes)) → Permᴰ m (walk m)) where
  -- Requests other than HEAD have arrived one behind the other, at most as many as the loop has
  -- rounds, and their handlers make responses that a client can read. Then the loop returns, and
  -- from the bytes that it has queued a client reads one whole response for each request, in the
  -- order of the requests, up to the first whose client does not want the connection kept or whose
  -- handler asks for a close, or to a 429 for the first that the rate limiter refuses: its status,
  -- its reason and its body are those of the handler's response, finalized by what client and handler
  -- want, and its header lines those that the encoder walks. Nothing is left over in front of what
  -- follows.
  pub conversation :
      (ms : List Message) (rounds : ℕ) (c : Connection) (l : L)
      → length ms ≤ rounds
      → AllMessages ms
      → AllAnswered router ms
      → let rs = responses allow router c.client_ip ms l in
        (s : Served L) × (more : Bytes) × (serve allow walk router now rounds (ready ms c) l
          ≡ some s)
        × (s.connection.write_buffer ≡ c.write_buffer ++ more)
        × ((rest : Bytes)
            → read_responses (length rs) (more ++ rest) ≡ some (map (whole_reply walk) rs, rest))
  conversation ms rounds c l fits v answered =
      let rs = responses allow router c.client_ip ms l in
      let (s, e, w, _, _) = serve-responses allow walk router now rounds (ready ms c) l in
      (
        s,
        encoded walk rs,
        e,
        w
            ∙ ap (λ fs. c.write_buffer ++ encoded walk (owed allow router c.client_ip fs l))
                (found-stream ms rounds c fits v),
        λ rest.
            Reads-encoded walk same_entries rs rest
              (responses-AllReadable allow router c.client_ip ms l answered),
      )

  -- Requests other than HEAD have arrived one behind the other, at most as many as the loop has
  -- rounds; each wants the connection kept, no handler asks for a close, each makes a response that a
  -- client can read, and the rate limiter refuses nothing. Then the loop returns, and from the bytes
  -- that it has queued a client reads as many responses as it has sent requests: the handler's for
  -- each of them, in order, whole, and with nothing left over in front of what follows.
  kept_conversation :
      (ms : List Message) (rounds : ℕ) (c : Connection) (l : L)
      → length ms ≤ rounds
      → AllMessages ms
      → AllAnswered router ms
      → AllKept router ms
      → ((k : L) → (allow c.client_ip k).0 ≡ true)
      → (s : Served L) × (more : Bytes) × (serve allow walk router now rounds (ready ms c) l
          ≡ some s)
        × (s.connection.write_buffer ≡ c.write_buffer ++ more)
        × ((rest : Bytes)
            → read_responses (length ms) (more ++ rest)
              ≡ some (map (whole_reply walk) (all_responses router ms), rest))
  kept_conversation ms rounds c l fits v answered kept allowed =
      let (s, more, e, w, reads) = conversation ms rounds c l fits v answered in
      let same = responses-kept allow router c.client_ip ms l allowed kept in
      (
        s,
        more,
        e,
        w,
        λ rest.
            ap (λ n. read_responses n (more ++ rest))
              (sym (length_all router ms) ∙ ap length (sym same))
            ∙ reads rest
            ∙ ap (λ rs. some (map (whole_reply walk) rs, rest)) same,
      )
