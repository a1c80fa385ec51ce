-- ===== src/Http/Client/Status.antt =====
-- The status line that the encoder writes, as a client reads it.
use c_http_1_1_server.Base.{
  ℕ, ◌<◌, ◌≡◌, sym, ap, ◌∙◌, arith, ◌∷◌, ◌++◌, append_assoc, Option, some, Bytes, crlf, Lacks,
  starts_with,
}
use c_http_1_1_server.Http.Numbers.{to_string, stoull, word_mod}
use c_http_1_1_server.Http.Numbers.RoundTrip.{
  stoull-to_string, to_string-Lacks, digit_char_no_cr, digit_char_no_blank,
}
use c_http_1_1_server.Http.Response.{HttpResponse}
use c_http_1_1_server.Http.Encoder.{status_line}
use c_http_1_1_server.Http.Client.{◌>>=◌, read_line, read_status, http_version}
use c_http_1_1_server.Http.Client.Lines.{read_line-crlf, cut_at-Lacks}
use c_http_1_1_server.Http.Client.Fields.{Lacks-append}

-- A status line, without the CRLF behind it.
abbrev pub status_text : HttpResponse → Bytes
status_text r = http_version ++ (to_string r.status_code ++ (b' ' ∷ r.status_message))

pub read_status-status_text :
    (r : HttpResponse)
    → r.status_code < word_mod
    → read_status (status_text r) ≡ some (r.status_code, r.status_message)
unfolding read_status starts_with
read_status-status_text r h =
    ap
      (λ (o : Option (Bytes × Bytes)).
        o >>= λ (digits, reason). stoull digits >>= λ status. some (status, reason))
      (cut_at-Lacks b' ' (to_string r.status_code) r.status_message
        (to_string-Lacks b' ' r.status_code digit_char_no_blank))
    ∙ ap (λ (o : Option ℕ). o >>= λ status. some (status, r.status_message))
        (stoull-to_string r.status_code h)

status_line-text :
    (r : HttpResponse) (rest : Bytes) → status_line r ++ rest ≡ status_text r ++ (crlf ++ rest)
unfolding status_line
status_line-text r rest =
    let digits = to_string r.status_code in
    let reason = r.status_message in
    ap (λ t. http_version ++ t)
      (append_assoc digits (b' ' ∷ (reason ++ crlf)) rest
        ∙ ap (λ t. digits ++ (b' ' ∷ t)) (append_assoc reason crlf rest)
        ∙ sym (append_assoc digits (b' ' ∷ reason) (crlf ++ rest)))

pub read_line-status_line :
    (r : HttpResponse) (rest : Bytes)
    → Lacks b'\r' r.status_message
    → read_line (status_line r ++ rest) ≡ some (status_text r, rest)
read_line-status_line r rest h =
    ap read_line (status_line-text r rest)
    ∙ read_line-crlf (status_text r) rest (
        Lacks-append b'\r' http_version (to_string r.status_code ++ (b' ' ∷ r.status_message))
          (ground arith)
          (Lacks-append b'\r' (to_string r.status_code) (b' ' ∷ r.status_message)
            (to_string-Lacks b'\r' r.status_code digit_char_no_cr) (ground arith, h)))
