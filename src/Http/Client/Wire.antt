-- ===== src/Http/Client/Wire.antt =====
-- A response on the wire: what a client reads of what the encoder writes.
use mathlib.Core.List.{Permᴰ}
use c_http_1_1_server.Base.{
  ℕ, ◌≡◌, inl, inr, refl, ap, ◌∙◌, arith, Bool, false, not, List, [], ◌++◌, append_assoc, Option,
  some, Bool-cases, if◌then◌else◌, length, length-append, Bytes, codes, crlf, to_lower,
}
use c_http_1_1_server.Base.StringMap.Order.{permuted-Agrees, AllEntries, permuted-AllEntries}
use c_http_1_1_server.Http.Headers
use c_http_1_1_server.Http.Headers.{HttpHeaders}
use c_http_1_1_server.Http.Response.{HttpResponse}
use c_http_1_1_server.Http.Encoder.{
  encode, encode_body, header_lines, set_response_header, status_line,
}
use c_http_1_1_server.Http.Encoder.Framing.{te_name, cl_name}
use c_http_1_1_server.Http.Client.{
  ◌>>=◌, Reply, field, is_bodiless, read_body, read_fields, read_framed, read_response, read_status,
}
use c_http_1_1_server.Http.Client.Fields.{
  IsSent, read_fields-header_lines, length-header_lines, field-lookup,
}
use c_http_1_1_server.Http.Client.Status.{read_status-status_text, read_line-status_line}
use c_http_1_1_server.Http.Client.Framed.{IsWire, after-IsReadable, read_framed-encode_body}

-- What is written behind the header lines.
abbrev pub body_part : Bool → HttpResponse → Bytes
body_part sent_head after = if not sent_head then encode_body after else []

-- The reader's steps, each behind what the one before it yields.
abbrev with_body :
    ℕ → Bytes → List (Bytes × Bytes) → Option (Bytes × Bytes) → Option (Reply × Bytes)
with_body status reason fields o = o >>= λ (body, rest).
    some (record { status = status; reason = reason; fields = fields; body = body }, rest)

abbrev with_fields :
    Bool → ℕ → Bytes → Option (List (Bytes × Bytes) × Bytes) → Option (Reply × Bytes)
with_fields is_head status reason o =
    o >>= λ (fields, rest). with_body status reason fields (read_body is_head status fields rest)

abbrev with_status : Bool → Bytes → Option (ℕ × Bytes) → Option (Reply × Bytes)
with_status is_head rest o =
    o >>= λ (status, reason). with_fields is_head status reason (read_fields (length rest) rest)

abbrev with_line : Bool → Option (Bytes × Bytes) → Option (Reply × Bytes)
with_line is_head o = o >>= λ (line, rest). with_status is_head rest (read_status line)

module _ (walk : List (Bytes × Bytes) → List (Bytes × Bytes)) (r : HttpResponse) where
  -- The header lines, in the order in which the encoder walks the map.
  abbrev pub fields_sent : List (Bytes × Bytes)
  fields_sent = walk (set_response_header r).headers.m_headers

  -- The response that a client is to have read.
  abbrev pub reply_read : Bool → Reply
  reply_read is_head = record {
    status = r.status_code;
    reason = r.status_message;
    fields = fields_sent;
    body = if is_bodiless is_head r.status_code then [] else r.body;
  }

module _ (walk : List (Bytes × Bytes) → List (Bytes × Bytes)) (r : HttpResponse) (w : IsWire r)
    (same_entries : (m : List (Bytes × Bytes)) → Permᴰ m (walk m)) where
  fields_sent-IsSent : AllEntries IsSent (fields_sent walk r)
  fields_sent-IsSent = permuted-AllEntries IsSent (same_entries _) (after-IsReadable r w).entries

  field_sent :
      (name : Bytes)
      → field (to_lower name) (fields_sent walk r)
        ≡ Headers.get name (set_response_header r).headers
  unfolding Headers.get
  field_sent name =
      field-lookup (to_lower name) (fields_sent walk r) fields_sent-IsSent
      ∙ (permuted-Agrees (same_entries _) (after-IsReadable r w).once).0 (to_lower name)

  read_body_sent :
      (is_head sent_head : Bool) (rest : Bytes)
      → (is_bodiless is_head r.status_code ≡ false → sent_head ≡ false)
      → let bare = is_bodiless is_head r.status_code in
        let part = body_part sent_head (set_response_header r) in
        read_body is_head r.status_code (fields_sent walk r) (part ++ rest)
        ≡ some (if bare then [] else r.body, if bare then part ++ rest else rest)
  unfolding read_body to_lower
  read_body_sent is_head sent_head rest agree =
      elim (Bool-cases (is_bodiless is_head r.status_code)) [
        | inl bare ↦ rw bare refl
        | inr full ↦
            let bytes = encode_body (set_response_header r) ++ rest in
            rw (full, agree full)
              (ap (λ o. read_framed o (field (codes "content-length") (fields_sent walk r)) bytes)
                  (field_sent te_name)
                ∙ ap
                    (λ o. read_framed (Headers.get te_name (set_response_header r).headers) o bytes)
                    (field_sent cl_name)
                ∙ read_framed-encode_body r w rest)
      ]

  encode_text :
      (sent_head : Bool) (rest : Bytes)
      → (encode walk r sent_head).0 ++ rest
        ≡ status_line r
          ++ (header_lines (fields_sent walk r)
              ++ (crlf ++ (body_part sent_head (set_response_header r) ++ rest)))
  unfolding encode
  encode_text sent_head rest =
      let part = body_part sent_head (set_response_header r) in
      let lines = header_lines (fields_sent walk r) in
      append_assoc (status_line r ++ (lines ++ crlf)) part rest
      ∙ append_assoc (status_line r) (lines ++ crlf) (part ++ rest)
      ∙ ap (λ t. status_line r ++ t) (append_assoc lines crlf (part ++ rest))

  read_fields_sent :
      (rest : Bytes)
      → let text = header_lines (fields_sent walk r) ++ (crlf ++ rest) in
        read_fields (length text) text ≡ some ((fields_sent walk r), rest)
  read_fields_sent rest =
      let text = header_lines (fields_sent walk r) ++ (crlf ++ rest) in
      read_fields-header_lines (length text) (fields_sent walk r) rest fields_sent-IsSent (
        omega (
          arith,
          length-header_lines (fields_sent walk r),
          length-append (header_lines (fields_sent walk r)) (crlf ++ rest),
        ))

  -- A client reads back a response of a handler, behind which any bytes may follow: its status, its
  -- reason, a header map with the same headers, and its body, and it leaves just what follows. If
  -- the response has no body for the client (it answers HEAD, or the status is below 200, 204 or
  -- 304), the bytes of the body that the encoder has written stay in front of what follows.
  pub read_response-encode :
      (is_head sent_head : Bool) (rest : Bytes)
      → (is_bodiless is_head r.status_code ≡ false → sent_head ≡ false)
      → let (bytes, after) = encode walk r sent_head in
        let bare = is_bodiless is_head r.status_code in
        (read_response is_head (bytes ++ rest)
          ≡ some
              (reply_read walk r is_head, if bare then body_part sent_head after ++ rest else rest))
        × ((name : Bytes)
            → field (to_lower name) (fields_sent walk r) ≡ Headers.get name after.headers)
  unfolding read_response encode
  read_response-encode is_head sent_head rest agree =
      let part = body_part sent_head (set_response_header r) in
      let text = header_lines (fields_sent walk r) ++ (crlf ++ (part ++ rest)) in
      (
        ap (read_response is_head) (encode_text sent_head rest)
            ∙ ap (with_line is_head) (read_line-status_line r text w.reason)
            ∙ ap (with_status is_head text) (read_status-status_text r w.status)
            ∙ ap (with_fields is_head r.status_code r.status_message)
                (read_fields_sent (part ++ rest))
            ∙ ap (with_body r.status_code r.status_message (fields_sent walk r))
                (read_body_sent is_head sent_head rest agree),
        field_sent,
      )
