-- ===== src/Network/Worker/Timeless.antt =====
-- The parse loop does the same at any time.
use c_http_1_1_server.Base.{
  ℕ, zero, suc, ◌≡◌, refl, sym, ap, ◌∙◌, Bool, true, false, List, Option, none, some, Bytes,
  if◌then◌else◌, is_empty,
}
use c_http_1_1_server.Http.Parser.{Machine, ParseResult, parse}
use c_http_1_1_server.Http.Router.{HttpRouter}
use c_http_1_1_server.Network.Connection.{Connection, append_unsent_data}
use c_http_1_1_server.Network.Worker.{
  Ending, Served, machine_of, respond, handled, store, answer, after_parse, serve,
}

-- A connection without the time of its last activity.
abbrev pub timeless : Connection → Connection
timeless c = record c { last_activity = 0 }

-- What the client and the rate limiter see of a run of the loop, and how it ended.
abbrev pub seen : {L : Type 0} → Option (Served L) → Option (Ending × Bytes × L)
seen none = none
seen (some s) = some (s.ending, s.connection.write_buffer, s.limiter)

module _ {L : Type 0} (allow : Bytes → L → Bool × L)
    (walk : List (Bytes × Bytes) → List (Bytes × Bytes)) (router : HttpRouter) where
  -- Two ways on that are seen as one, on connections that differ in the time only.
  abbrev SameWay :
      (Connection → L → Option (Served L)) → (Connection → L → Option (Served L)) → Type 0
  SameWay f g =
      (c c' : Connection) (l : L) → timeless c ≡ timeless c' → seen (f c l) ≡ seen (g c' l)

  either_seen :
      (b : Bool) (o o' p p' : Option (Served L))
      → seen o ≡ seen o'
      → seen p ≡ seen p'
      → seen (if b then o else p) ≡ seen (if b then o' else p')
  either_seen true o o' p p' e f = e
  either_seen false o o' p p' e f = f

  answer-timeless :
      (now now' : ℕ) (f g : Connection → L → Option (Served L)) (c : Connection) (a : Bool × L)
      → SameWay f g
      → seen (answer allow walk router now f c a)
        ≡ seen (answer allow walk router now' g (timeless c) a)
  unfolding respond handled append_unsent_data
  answer-timeless now now' f g c (false, l) h = refl
  answer-timeless now now' f g c (true, l) h =
      let res = handled allow walk router now c.request in
      either_seen res.close_after_send _ _ _ _ refl (h _ _ l refl)

  after_parse-timeless :
      (now now' : ℕ) (f g : Connection → L → Option (Served L)) (c : Connection) (l : L)
      (o : Option (ParseResult × Machine))
      → SameWay f g
      → seen (after_parse allow walk router now f c l o)
        ≡ seen (after_parse allow walk router now' g (timeless c) l o)
  unfolding respond append_unsent_data
  after_parse-timeless now now' f g c l none h = refl
  after_parse-timeless now now' f g c l (some (ParseResult.incomplete, m)) h = refl
  after_parse-timeless now now' f g c l (some (ParseResult.error, m)) h = refl
  after_parse-timeless now now' f g c l (some (ParseResult.success, m)) h =
      answer-timeless now now' f g (store m c) (allow c.client_ip l) h

  round-timeless :
      (now now' rounds : ℕ) (c : Connection) (l : L)
      → SameWay (serve allow walk router now rounds) (serve allow walk router now' rounds)
      → seen (serve allow walk router now (suc rounds) c l)
        ≡ seen (serve allow walk router now' (suc rounds) (timeless c) l)
  unfolding serve
  round-timeless now now' rounds c l h =
      either_seen (is_empty c.read_buffer) _ _ _ _ refl
        (after_parse-timeless now now' _ _ c l (parse (machine_of c)) h)

  pub serve-timeless :
      (now now' rounds : ℕ) (c c' : Connection) (l : L)
      → timeless c ≡ timeless c'
      → seen (serve allow walk router now rounds c l)
        ≡ seen (serve allow walk router now' rounds c' l)
  unfolding serve
  serve-timeless now now' zero c c' l e =
      ap (λ (x : Connection). seen (serve allow walk router now zero x l)) e
  serve-timeless now now' (suc rounds) c c' l e =
      round-timeless now now' rounds c l (λ d d' k x. serve-timeless now now' rounds d d' k x)
      ∙ ap (λ (x : Connection). seen (serve allow walk router now' (suc rounds) x l)) e
      ∙ sym (
          round-timeless now' now' rounds c' l
            (λ d d' k x. serve-timeless now' now' rounds d d' k x))
