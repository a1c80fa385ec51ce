-- ===== src/Http/Client/Framed.antt =====
-- How a client finds the end of a body that the encoder writes.
use c_http_1_1_server.Base.{
  either_way, subst, ℕ, ◌<◌, ◌≡◌, inl, inr, refl, sym, ap, ◌∙◌, arith, ◌∷◌, ◌++◌, Option, some,
  none, ltb, ltb→lt, ltb→le, ◌==◌, ==_iff, Bool-cases, length, Bytes, bytes_eq, codes, Lacks,
  to_lower,
}
use c_http_1_1_server.Base.StringMap.{Distinct, insert-Distinct}
use c_http_1_1_server.Base.StringMap.Order.{AllEntries, AllEntries-insert}
use c_http_1_1_server.Http.Headers
use c_http_1_1_server.Http.Headers.{HttpHeaders}
use c_http_1_1_server.Http.Headers.Laws
use c_http_1_1_server.Http.Headers.Laws.{del_capital}
use c_http_1_1_server.Http.Numbers.{digit_char, to_string, stoull, word_mod}
use c_http_1_1_server.Http.Numbers.RoundTrip.{
  stoull-to_string, to_string-Lacks, to_string_front, digit_char_no_cr,
}
use c_http_1_1_server.Http.Message.{IsTrimmed}
use c_http_1_1_server.Http.Response.{HttpResponse, BodyType}
use c_http_1_1_server.Http.Encoder.{max_chuck_size, encode_body, set_response_header}
use c_http_1_1_server.Http.Encoder.Framing.{
  te_name, cl_name, capital_te, capital_cl, set_response_header-Framing, zero_reads,
}
use c_http_1_1_server.Http.Client.{◌>>=◌, read_framed, take_exactly}
use c_http_1_1_server.Http.Client.Lines.{take_exactly_front}
use c_http_1_1_server.Http.Client.Chunks.{read_chunks-chunked_body}
use c_http_1_1_server.Http.Client.Fields.{IsSent, IsSent-IsLower}

-- What a handler's response is to be for a client to read it: the header map holds no name twice,
-- its headers fit in lines and none of them is about the framing, the reason holds no CR, and
-- the numbers fit in words.
pub record IsWire (r : HttpResponse) : Type 0 where
  pub sent : AllEntries IsSent r.headers.m_headers
  pub distinct : Distinct r.headers.m_headers
  pub no_te : Headers.get te_name r.headers ≡ none
  pub no_cl : Headers.get cl_name r.headers ≡ none
  pub reason : Lacks b'\r' r.status_message
  pub status : r.status_code < word_mod
  pub size : length r.body < word_mod
  pub plain : r.body_type ≡ BodyType.content_length

-- A header map that a client can read.
pub record IsReadable (h : HttpHeaders) : Type 0 where
  pub entries : AllEntries IsSent h.m_headers
  pub once : Distinct h.m_headers

pub set-IsReadable :
    (k v : Bytes) (h : HttpHeaders)
    → IsSent (to_lower k) v
    → IsReadable h
    → IsReadable (Headers.set k v h)
unfolding Headers.set
set-IsReadable k v h s i = record {
  entries = AllEntries-insert IsSent (to_lower k) v h.m_headers s i.entries;
  once = insert-Distinct (to_lower k) v h.m_headers i.once;
}

te-IsSent : IsSent (to_lower te_name) (codes "chunked")
unfolding to_lower
te-IsSent = record {
  lower_key = refl;
  no_cr_key = ground arith;
  no_colon = ground arith;
  no_cr_value = ground arith;
  trimmed = refl;
}

digit-IsTrimmed : (d : ℕ) (more : Bytes) → d < 10 → IsTrimmed (digit_char d ∷ more)
unfolding digit_char
digit-IsTrimmed d more h = ground arith

cl-IsSent : (n : ℕ) → IsSent (to_lower cl_name) (to_string n)
unfolding to_lower
cl-IsSent n =
    let (d, more, e, dl) = to_string_front n in
    record {
      lower_key = refl;
      no_cr_key = ground arith;
      no_colon = ground arith;
      no_cr_value = to_string-Lacks b'\r' n digit_char_no_cr;
      trimmed = subst IsTrimmed (sym e) (digit-IsTrimmed d more dl);
    }

zero_printed : to_string 0 ≡ codes "0"
unfolding to_string
zero_printed = refl

module _ (r : HttpResponse) (w : IsWire r) where
  pub headers-IsValid : Headers.Laws.IsValid r.headers
  headers-IsValid = record { lower_keys = IsSent-IsLower r.headers.m_headers w.sent }

  before-IsReadable : IsReadable r.headers
  before-IsReadable = record { entries = w.sent; once = w.distinct }

  pub after-IsReadable : IsReadable (set_response_header r).headers
  unfolding set_response_header
  after-IsReadable =
      let n = length r.body in
      let same_cl : Headers.del cl_name r.headers ≡ r.headers =
        del_capital cl_name headers-IsValid capital_cl in
      let same_te : Headers.del te_name r.headers ≡ r.headers =
        del_capital te_name headers-IsValid capital_te in
      let before = before-IsReadable in
      either_way (λ (q : HttpResponse). IsReadable q.headers) (ltb max_chuck_size n)
        (set-IsReadable te_name (codes "chunked") (Headers.del cl_name r.headers) te-IsSent
          (subst IsReadable (sym same_cl) before))
        (either_way (λ (q : HttpResponse). IsReadable q.headers) (n == 0)
          (set-IsReadable cl_name (codes "0") r.headers
            (subst (IsSent (to_lower cl_name)) zero_printed (cl-IsSent 0)) before)
          (set-IsReadable cl_name (to_string n) (Headers.del te_name r.headers) (cl-IsSent n)
            (subst IsReadable (sym same_te) before)))

  -- The body, behind headers that say what the encoder has set.
  framed_by_length :
      (after : HttpResponse) (rest : Bytes) (announced : Bytes)
      → Headers.get te_name after.headers ≡ none
      → Headers.get cl_name after.headers ≡ some announced
      → stoull announced ≡ some (length r.body)
      → after.body ≡ r.body
      → after.body_type ≡ BodyType.content_length
      → read_framed
          (Headers.get te_name after.headers)
          (Headers.get cl_name after.headers)
          (encode_body after ++ rest)
        ≡ some (r.body, rest)
  unfolding encode_body
  framed_by_length after rest announced no_te cl number same plain =
      rw (no_te, cl, plain, same)
        (ap (λ (o : Option ℕ). o >>= λ n. take_exactly n (r.body ++ rest)) number
          ∙ take_exactly_front r.body rest)

  framed_by_chunks :
      (after : HttpResponse) (rest : Bytes)
      → Headers.get te_name after.headers ≡ some (codes "chunked")
      → after.body ≡ r.body
      → after.body_type ≡ BodyType.chunked
      → read_framed
          (Headers.get te_name after.headers)
          (Headers.get cl_name after.headers)
          (encode_body after ++ rest)
        ≡ some (r.body, rest)
  unfolding encode_body bytes_eq to_lower
  framed_by_chunks after rest te same chunked =
      rw (te, chunked, same) (read_chunks-chunked_body r.body rest)

  pub same_body : (set_response_header r).body ≡ r.body
  unfolding set_response_header
  same_body = ground arith

  pub read_framed-encode_body :
      (rest : Bytes)
      → let after = set_response_header r in
        read_framed
          (Headers.get te_name after.headers)
          (Headers.get cl_name after.headers)
          (encode_body after ++ rest)
        ≡ some (r.body, rest)
  read_framed-encode_body rest =
      let n = length r.body in
      let f = set_response_header-Framing r headers-IsValid in
      let after = set_response_header r in
      elim (Bool-cases (ltb max_chuck_size n)) [
        | inl large ↦
            let (chunked, te, _) = f.large (ltb→lt _ _ large) in
            framed_by_chunks after rest te same_body chunked
        | inr within ↦ elim (Bool-cases (n == 0)) [
          | inl nothing ↦
              let is_zero = (==_iff n 0).0 nothing in
              let (plain, cl, te) = f.none_left is_zero in
              framed_by_length after rest (codes "0") (te ∙ w.no_te) cl
                (subst (λ m. stoull (codes "0") ≡ some m) (sym is_zero) zero_reads) same_body
                (plain ∙ w.plain)
          | inr something ↦
              let (plain, cl, te) = f.small (ground arith) (ltb→le _ _ within) in
              framed_by_length after rest (to_string n) (te ∙ w.no_te) cl
                (stoull-to_string n w.size) same_body plain
        ]
      ]
