-- ===== src/Http/Parser/Feed.antt =====
-- Deliveries of any size: the bytes of a request may be cut anywhere.
use c_http_1_1_server.Base.{
  ◌≡◌, ◌≢◌, ◌⊎◌, inl, inr, refl, sym, ap, ◌∙◌, List, [], ◌∷◌, ◌++◌, append-nil, append_assoc,
  Option, none, some, eq_of_some, subst, Bytes,
}
use c_http_1_1_server.Http.Parser.{Machine, ParseResult, parse}
use c_http_1_1_server.Http.Parser.Total.{parse_total}
use c_http_1_1_server.Http.Parser.Resume.{append}
use c_http_1_1_server.Http.Parser.Pause.{parse-resume, parse-success-append}

pub record Fed : Type 0 where
  pub result : ParseResult
  pub machine : Machine
  pub unread : List Bytes

-- `parse` on what is buffered, and again after each delivery as long as it says `Incomplete`; with
-- the deliveries that were not read.
unfoldable pub feed : Machine → List Bytes → Option Fed
unfolding parse
feed m [] = elim (parse m) [
  | none ↦ none
  | some (r, m') ↦ some (record { result = r; machine = m'; unread = [] })
]
feed m (piece ∷ pieces) = elim (parse m) [
  | none ↦ none
  | some (r, m') ↦
      let more = feed (append m' piece) pieces in
      elim r [
        | ParseResult.incomplete ↦ more
        | other ↦ some (record { result = other; machine = m'; unread = piece ∷ pieces })
      ]
]

abbrev pub concat : List Bytes → Bytes
concat [] = []
concat (b ∷ bs) = b ++ concat bs

append_nil : (m : Machine) → append m [] ≡ m
append_nil m = ap (λ b. record m { read_buffer = b }) (append-nil m.read_buffer)

append-append : (m : Machine) (a b : Bytes) → append m (a ++ b) ≡ append (append m a) b
append-append m a b = ap (λ c. record m { read_buffer = c }) (sym (append_assoc m.read_buffer a b))

Result-cases :
    (r : ParseResult)
    → (r ≡ ParseResult.success) ⊎ (r ≡ ParseResult.incomplete) ⊎ (r ≡ ParseResult.error)
Result-cases ParseResult.success = inl refl
Result-cases ParseResult.incomplete = inr (inl refl)
Result-cases ParseResult.error = inr (inr refl)

-- One call of `parse` on all the bytes ends as the deliveries did.
abbrev AsWhole : Machine → Bytes → Fed → Type 0
AsWhole m bytes f = parse (append m bytes) ≡ some (f.result, append f.machine (concat f.unread))

feed-parse-nil : (m : Machine) (f : Fed) → feed m [] ≡ some f → AsWhole m [] f
unfolding feed
feed-parse-nil m f e =
    let (q, n, first) = parse_total m in
    let ended : record { result = q; machine = n; unread = [] } ≡ f =
      eq_of_some (rw (first, feed) at e) in
    let whole : AsWhole m [] (record { result = q; machine = n; unread = [] }) =
      ap parse (append_nil m) ∙ first ∙ ap (λ x. some (q, x)) (sym (append_nil n)) in
    subst (AsWhole m []) ended whole

-- However the bytes are cut into deliveries, a run that meets no error ends with the result, the
-- request and the unread bytes of one call of `parse` on all of them together.
pub feed-parse :
    (pieces : List Bytes) (m : Machine) (f : Fed)
    → feed m pieces ≡ some f
    → f.result ≢ ParseResult.error
    → parse (append m (concat pieces)) ≡ some (f.result, append f.machine (concat f.unread))
unfolding feed
feed-parse [] m f e good = feed-parse-nil m f e
feed-parse (piece ∷ pieces) m f e good =
    let (q, n, first) = parse_total m in
    elim (Result-cases q) [
      | inl e1 ↦
          let whole = rw e1 at first in
          subst (AsWhole m (piece ++ concat pieces)) (eq_of_some (rw (whole, feed) at e))
            (parse-success-append m n (piece ++ concat pieces) whole)
      | inr (inl e2) ↦
          let paused = rw e2 at first in
          parse-resume m n (piece ++ concat pieces) paused
          ∙ ap parse (append-append n piece (concat pieces))
          ∙ feed-parse pieces (append n piece) f (rw (paused, feed) at e) good
      | inr (inr e3) ↦
          let failed = rw e3 at first in
          let ended : record { result = ParseResult.error; machine = n; unread = piece ∷ pieces }
              ≡ f =
            eq_of_some (rw (failed, feed) at e) in
          absurd (good (sym (ap (λ x. x.result) ended)))
    ]
