-- ===== src/Http/Client/Answers.antt =====
-- The operations of a response that keep it readable for a client.
use mathlib.Core.List.{Permᴰ}
use c_http_1_1_server.Base.{
  some, List, ◌++◌, Bool-cases, inl, inr, ℕ, ◌<◌, ◌≡◌, refl, ap, ◌∙◌, arith, Bool, true, false, not,
  ◌&&◌, length, Bytes, bytes_eq, codes, Lacks, to_lower, [],
}
use c_http_1_1_server.Base.StringMap.{lookup}
use c_http_1_1_server.Http.Headers
use c_http_1_1_server.Http.Headers.Laws.{get-set}
use c_http_1_1_server.Http.Numbers.{word_mod}
use c_http_1_1_server.Http.Message.{IsTrimmed}
use c_http_1_1_server.Http.Response
use c_http_1_1_server.Http.Response.{
  HttpResponse, BodyType, set_header, set_body, set_status, html, json, announce,
  finalize_for_connection, already_close,
}
use c_http_1_1_server.Http.Encoder.{encode, encode_body, set_response_header}
use c_http_1_1_server.Http.Encoder.Framing.{set_response_header-Framing, te_name, cl_name}
use c_http_1_1_server.Http.Client.{Reply, is_bodiless, read_response}
use c_http_1_1_server.Http.Client.Wire.{fields_sent, read_response-encode}
use c_http_1_1_server.Http.Client.Fields.{IsSent}
use c_http_1_1_server.Http.Client.Framed.{headers-IsValid, same_body, IsWire, set-IsReadable}

-- A header that is not about the framing.
record IsPlain (key value : Bytes) : Type 0 where
  fits : IsSent (to_lower key) value
  other_te : bytes_eq (to_lower key) (to_lower te_name) ≡ false
  other_cl : bytes_eq (to_lower key) (to_lower cl_name) ≡ false

set_header-IsWire :
    (key value : Bytes) {r : HttpResponse}
    → IsPlain key value
    → IsWire r
    → IsWire (set_header key value r)
unfolding set_header
set_header-IsWire key value {r} p w =
    let i =
      set-IsReadable key value r.headers p.fits (record { entries = w.sent; once = w.distinct }) in
    record {
      sent = i.entries;
      distinct = i.once;
      no_te = get-set key te_name value r.headers ∙ rw (p.other_te, w.no_te) refl;
      no_cl = get-set key cl_name value r.headers ∙ rw (p.other_cl, w.no_cl) refl;
      reason = w.reason;
      status = w.status;
      size = w.size;
      plain = w.plain;
    }

-- The headers that the program sets.
content_type-IsPlain : (v : Bytes) → Lacks b'\r' v → IsTrimmed v → IsPlain (codes "Content-Type") v
unfolding to_lower bytes_eq
content_type-IsPlain v no_cr trimmed = record {
  fits = record {
    lower_key = refl;
    no_cr_key = ground arith;
    no_colon = ground arith;
    no_cr_value = no_cr;
    trimmed = trimmed;
  };
  other_te = refl;
  other_cl = refl;
}

connection-IsPlain : (v : Bytes) → Lacks b'\r' v → IsTrimmed v → IsPlain (codes "Connection") v
unfolding to_lower bytes_eq
connection-IsPlain v no_cr trimmed = record {
  fits = record {
    lower_key = refl;
    no_cr_key = ground arith;
    no_colon = ground arith;
    no_cr_value = no_cr;
    trimmed = trimmed;
  };
  other_te = refl;
  other_cl = refl;
}

retry_after-IsPlain : IsPlain (codes "Retry-After") (codes "1")
unfolding to_lower bytes_eq
retry_after-IsPlain = record {
  fits = record {
    lower_key = refl;
    no_cr_key = ground arith;
    no_colon = ground arith;
    no_cr_value = ground arith;
    trimmed = refl;
  };
  other_te = refl;
  other_cl = refl;
}

pub fresh-IsWire : IsWire Response.fresh
unfolding Headers.get lookup
fresh-IsWire = record {
  sent = tt;
  distinct = tt;
  no_te = refl;
  no_cl = refl;
  reason = ground arith;
  status = omega arith;
  size = omega arith;
  plain = refl;
}

pub set_status-IsWire :
    (code : ℕ) (message : Bytes) {r : HttpResponse}
    → code < word_mod
    → Lacks b'\r' message
    → IsWire r
    → IsWire (set_status code message r)
unfolding set_status
set_status-IsWire code message h k w = record {
  sent = w.sent;
  distinct = w.distinct;
  no_te = w.no_te;
  no_cl = w.no_cl;
  reason = k;
  status = h;
  size = w.size;
  plain = w.plain;
}

pub set_body-IsWire :
    (text : Bytes) {r : HttpResponse} → length text < word_mod → IsWire r → IsWire (set_body text r)
unfolding set_body
set_body-IsWire text h w = record {
  sent = w.sent;
  distinct = w.distinct;
  no_te = w.no_te;
  no_cl = w.no_cl;
  reason = w.reason;
  status = w.status;
  size = h;
  plain = w.plain;
}

pub set_content_type-IsWire :
    (v : Bytes) {r : HttpResponse}
    → Lacks b'\r' v
    → IsTrimmed v
    → IsWire r
    → IsWire (set_header (codes "Content-Type") v r)
set_content_type-IsWire v no_cr trimmed w =
    set_header-IsWire (codes "Content-Type") v (content_type-IsPlain v no_cr trimmed) w

pub html-IsWire :
    (text : Bytes) {r : HttpResponse} → length text < word_mod → IsWire r → IsWire (html text r)
unfolding html
html-IsWire text h w =
    set_body-IsWire text h
      (set_content_type-IsWire (codes "text/html; charset=utf-8") (ground arith) refl w)

pub json-IsWire :
    (text : Bytes) {r : HttpResponse} → length text < word_mod → IsWire r → IsWire (json text r)
unfolding json
json-IsWire text h w =
    set_body-IsWire text h
      (set_content_type-IsWire (codes "application/json") (ground arith) refl w)

-- A response that a client can read and whose status does not keep its body from being read.
pub record IsAnswer (r : HttpResponse) : Type 0 where
  pub wire : IsWire r
  pub full : is_bodiless false r.status_code ≡ true → r.body ≡ []

set_close-IsWire :
    (flag : Bool) {r : HttpResponse} → IsWire r → IsWire (record r { close_after_send = flag })
set_close-IsWire flag w = record {
  sent = w.sent;
  distinct = w.distinct;
  no_te = w.no_te;
  no_cl = w.no_cl;
  reason = w.reason;
  status = w.status;
  size = w.size;
  plain = w.plain;
}

announce-IsAnswer : (keep : Bool) {r : HttpResponse} → IsAnswer r → IsAnswer (announce keep r)
unfolding announce set_header
announce-IsAnswer true {r} a =
    let w =
      set_header-IsWire (codes "Connection") (codes "keep-alive")
        (connection-IsPlain (codes "keep-alive") (ground arith) refl) a.wire in
    record { wire = set_close-IsWire false w; full = a.full }
announce-IsAnswer false {r} a =
    let w =
      set_header-IsWire (codes "Connection") (codes "close")
        (connection-IsPlain (codes "close") (ground arith) refl) a.wire in
    record { wire = set_close-IsWire true w; full = a.full }

pub finalize_for_connection-IsAnswer :
    (keep head : Bool) {r : HttpResponse}
    → IsAnswer r
    → IsAnswer (finalize_for_connection keep head r)
unfolding finalize_for_connection
finalize_for_connection-IsAnswer keep head {r} a =
    announce-IsAnswer (keep && not (already_close r)) a

pub set_retry_after-IsWire :
    {r : HttpResponse} → IsWire r → IsWire (set_header (codes "Retry-After") (codes "1") r)
set_retry_after-IsWire w = set_header-IsWire (codes "Retry-After") (codes "1") retry_after-IsPlain w

encode_body-empty :
    (r : HttpResponse) → IsWire r → r.body ≡ [] → encode_body (set_response_header r) ≡ []
unfolding encode_body
encode_body-empty r w e =
    let (same_type, _, _) =
      (set_response_header-Framing r (headers-IsValid r w)).none_left (ap length e) in
    rw (same_type ∙ w.plain) (same_body r w ∙ e)

module _ (walk : List (Bytes × Bytes) → List (Bytes × Bytes)) where
  -- The response that a client is to read of an answer.
  abbrev pub whole_reply : HttpResponse → Reply
  whole_reply r = record {
    status = r.status_code;
    reason = r.status_message;
    fields = fields_sent walk r;
    body = r.body;
  }

  pub read_response-answer :
      (r : HttpResponse) (rest : Bytes)
      → ((m : List (Bytes × Bytes)) → Permᴰ m (walk m))
      → IsAnswer r
      → read_response false ((encode walk r false).0 ++ rest) ≡ some (whole_reply r, rest)
  unfolding encode
  read_response-answer r rest same_entries a =
      let (read, _) =
        read_response-encode walk r a.wire same_entries false false rest (λ _. refl) in
      elim (Bool-cases (is_bodiless false r.status_code)) [
        | inl bare ↦ read ∙ rw (bare, encode_body-empty r a.wire (a.full bare), a.full bare) refl
        | inr full ↦ read ∙ rw full refl
      ]
