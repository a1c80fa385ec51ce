-- ===== src/Http/Encoder/Framing.antt =====
-- The framing headers that `set_response_header` leaves.
use c_http_1_1_server.Base.{
  ℕ, ◌≤◌, ◌<◌, ◌≡◌, ◌≢◌, ◌⊎◌, inl, inr, refl, sym, ap, ◌∙◌, true, false, none, some, [], ◌∷◌, arith,
  ltb, lt→ltb, le→ltb, ltb→lt, ltb→le, ◌==◌, ==_iff, Bool-cases, length, Bytes, bytes_eq, codes,
  to_lower,
}
use c_http_1_1_server.Http.Headers
use c_http_1_1_server.Http.Headers.{HttpHeaders}
use c_http_1_1_server.Http.Headers.Laws
use c_http_1_1_server.Http.Headers.Laws.{get-set, del_capital}
use c_http_1_1_server.Http.Numbers.{to_string, stoull, word_mod}
use c_http_1_1_server.Http.Numbers.RoundTrip.{stoull-to_string}
use c_http_1_1_server.Http.Response.{HttpResponse, BodyType}
use c_http_1_1_server.Http.Encoder.{max_chuck_size, set_response_header}

abbrev pub te_name : Bytes
te_name = codes "Transfer-Encoding"

abbrev pub cl_name : Bytes
cl_name = codes "Content-Length"

abbrev first_byte : Bytes → ℕ
first_byte [] = 0
first_byte (c ∷ cs) = c

pub capital_te : to_lower te_name ≢ te_name
unfolding to_lower
capital_te e = omega (arith, ap first_byte e)

pub capital_cl : to_lower cl_name ≢ cl_name
unfolding to_lower
capital_cl e = omega (arith, ap first_byte e)

te_ne_cl : bytes_eq (to_lower te_name) (to_lower cl_name) ≡ false
unfolding to_lower bytes_eq
te_ne_cl = refl

cl_ne_te : bytes_eq (to_lower cl_name) (to_lower te_name) ≡ false
unfolding to_lower bytes_eq
cl_ne_te = refl

te_eq_te : bytes_eq (to_lower te_name) (to_lower te_name) ≡ true
unfolding to_lower bytes_eq
te_eq_te = refl

cl_eq_cl : bytes_eq (to_lower cl_name) (to_lower cl_name) ≡ true
unfolding to_lower bytes_eq
cl_eq_cl = refl

te_set : (v : Bytes) (h : HttpHeaders) → Headers.get te_name (Headers.set te_name v h) ≡ some v
te_set v h = get-set te_name te_name v h ∙ rw te_eq_te

cl_set : (v : Bytes) (h : HttpHeaders) → Headers.get cl_name (Headers.set cl_name v h) ≡ some v
cl_set v h = get-set cl_name cl_name v h ∙ rw cl_eq_cl

cl_after_te :
    (v : Bytes) {h : HttpHeaders}
    → Headers.Laws.IsValid h
    → Headers.get cl_name (Headers.set te_name v (Headers.del cl_name h)) ≡ Headers.get cl_name h
cl_after_te v {h} i =
    rw (del_capital cl_name i capital_cl) (get-set te_name cl_name v h ∙ rw te_ne_cl)

te_after_cl :
    (v : Bytes) {h : HttpHeaders}
    → Headers.Laws.IsValid h
    → Headers.get te_name (Headers.set cl_name v (Headers.del te_name h)) ≡ Headers.get te_name h
te_after_cl v {h} i =
    rw (del_capital te_name i capital_te) (get-set cl_name te_name v h ∙ rw cl_ne_te)

-- What the framing headers say, over what they said before.
pub record Framing (before after : HttpResponse) : Type 0 where
  pub large :
      max_chuck_size < length before.body
      → (after.body_type ≡ BodyType.chunked)
        × (Headers.get te_name after.headers ≡ some (codes "chunked"))
        × (Headers.get cl_name after.headers ≡ Headers.get cl_name before.headers)
  pub small :
      0 < length before.body
      → length before.body ≤ max_chuck_size
      → (after.body_type ≡ BodyType.content_length)
        × (Headers.get cl_name after.headers ≡ some (to_string (length before.body)))
        × (Headers.get te_name after.headers ≡ Headers.get te_name before.headers)
  pub none_left :
      length before.body ≡ 0
      → (after.body_type ≡ before.body_type)
        × (Headers.get cl_name after.headers ≡ some (codes "0"))
        × (Headers.get te_name after.headers ≡ Headers.get te_name before.headers)

-- Whatever the handler has set: the header for the framing that is used is right, and the header
-- for the other framing is left as the handler set it, since `del` is called with capital letters.
pub set_response_header-Framing :
    (r : HttpResponse) → Headers.Laws.IsValid r.headers → Framing r (set_response_header r)
unfolding set_response_header
set_response_header-Framing r v =
    let n = length r.body in
    record {
      large = λ h. rw (lt→ltb max_chuck_size n h) (refl, te_set _ _, cl_after_te _ v);
      small = λ pos h.
          let some_left : (n == 0) ≡ false = ground arith in
          rw (le→ltb max_chuck_size n h, some_left) (refl, cl_set _ _, te_after_cl _ v);
      none_left = λ e.
          rw (le→ltb max_chuck_size n (omega arith), (==_iff n 0).1 e)
            (refl, cl_set _ _, get-set cl_name te_name _ r.headers ∙ rw cl_ne_te);
    }

same_key : (h : HttpHeaders) → Headers.get (codes "content-length") h ≡ Headers.get cl_name h
unfolding Headers.get to_lower
same_key h = refl

content_length_reads :
    (h : HttpHeaders) {v : Bytes} {n : ℕ}
    → Headers.get cl_name h ≡ some v
    → stoull v ≡ some n
    → Headers.get_content_length h ≡ n
unfolding Headers.get_content_length
content_length_reads h e s =
    rw (same_key h ∙ e, Headers.get_content_length) (rw (s, Headers.or_zero))

pub zero_reads : stoull (codes "0") ≡ some 0
unfolding stoull
zero_reads = refl

-- A handler that sets neither framing header gets exactly one, for every body that a 64-bit size
-- counts: `Transfer-Encoding:
-- chunked` for a body over 64 KB, and else a `Content-Length` that is read back as the body's size.
pub framing_unambiguous :
    (r : HttpResponse)
    → Headers.Laws.IsValid r.headers
    → Headers.get te_name r.headers ≡ none
    → Headers.get cl_name r.headers ≡ none
    → length r.body < word_mod
    → let after = set_response_header r in
      ((max_chuck_size < length r.body)
        × (Headers.get te_name after.headers ≡ some (codes "chunked"))
        × (Headers.get cl_name after.headers ≡ none))
      ⊎ ((length r.body ≤ max_chuck_size)
          × (Headers.get te_name after.headers ≡ none)
          × (Headers.get_content_length after.headers ≡ length r.body))
framing_unambiguous r v no_te no_cl fits =
    let n = length r.body in
    let f = set_response_header-Framing r v in
    let after = (set_response_header r).headers in
    elim (Bool-cases (ltb max_chuck_size n)) [
      | inl large ↦
          let (_, te, cl) = f.large (ltb→lt _ _ large) in inl (ltb→lt _ _ large, te, cl ∙ no_cl)
      | inr within ↦ elim (Bool-cases (n == 0)) [
        | inl nothing ↦
            let is_zero = (==_iff n 0).0 nothing in
            let (_, cl, te) = f.none_left is_zero in
            inr (
              ltb→le _ _ within,
              te ∙ no_te,
              content_length_reads after cl zero_reads ∙ sym is_zero,
            )
        | inr something ↦
            let (_, cl, te) = f.small (ground arith) (ltb→le _ _ within) in
            inr (
              ltb→le _ _ within,
              te ∙ no_te,
              content_length_reads after cl (stoull-to_string n fits),
            )
      ]
    ]

-- A handler that sets `Content-Length` itself, among headers with lower-case keys, with a body over 64 KB, makes the server send both
-- framing headers.
pub framing_conflict :
    (r : HttpResponse) (v : Bytes)
    → Headers.Laws.IsValid r.headers
    → Headers.get cl_name r.headers ≡ some v
    → max_chuck_size < length r.body
    → (Headers.get te_name (set_response_header r).headers ≡ some (codes "chunked"))
      × (Headers.get cl_name (set_response_header r).headers ≡ some v)
framing_conflict r v i e h =
    let (_, te, cl) = (set_response_header-Framing r i).large h in (te, cl ∙ e)
