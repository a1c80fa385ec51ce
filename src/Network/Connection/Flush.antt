-- ===== src/Network/Connection/Flush.antt =====
-- What `flush` sends and keeps, however `send` behaves.
use c_http_1_1_server.Base.{
  ◌≡◌, ◌↔◌, refl, ap, ◌∙◌, arith, Bool, true, false, not, List, [], ◌∷◌, ◌++◌, append_assoc, take,
  drop, take-append-drop, length, length-drop, append-nil, ◌≤◌, ◌&&◌, sym, Bytes,
}
use c_http_1_1_server.Network.Connection.{
  Connection, Sent, accepted, nothing, would_block, failed, flush_loop, flush, has_pending_writes,
}

-- The answer of `has_pending_writes` on what a run of the loop leaves.
pending :
    (all_sent : Bool) (unsent : Bytes)
    → ((all_sent ≡ true) ↔ (unsent ≡ []))
    → (elim unsent [ [] ↦ false | x ∷ xs ↦ true ]) ≡ not all_sent
pending true [] h = refl
pending true (b ∷ bs) h = absurd (omega (arith, ap length (h.0 refl)))
pending false [] h = ground (arith, h.1 refl)
pending false (b ∷ bs) h = refl

flush_loop_keeps :
    (results : List Sent) (bytes : Bytes)
    → let f = flush_loop results bytes in
      (f.wire ++ f.unsent ≡ bytes)
      × ((f.all_sent ≡ true) ↔ (f.unsent ≡ []))
      × (f.has_error ≡ true → f.all_sent ≡ false)
unfolding flush_loop
flush_loop_keeps results [] = ground arith
flush_loop_keeps [] (b ∷ bs) = ground arith
flush_loop_keeps (accepted n ∷ results) (b ∷ bs) =
    let (kept, sent_iff, error) = flush_loop_keeps results (drop n bs) in
    let rest = flush_loop results (drop n bs) in
    (
      ap (◌∷◌ b) (
          append_assoc (take n bs) rest.wire rest.unsent
          ∙ ap (◌++◌ (take n bs)) kept
          ∙ take-append-drop n bs),
      sent_iff,
      error,
    )
flush_loop_keeps (nothing ∷ results) (b ∷ bs) = ground arith
flush_loop_keeps (would_block ∷ results) (b ∷ bs) = ground arith
flush_loop_keeps (failed ∷ results) (b ∷ bs) = ground arith

-- Whatever `send` does, the bytes that went out, followed by those that are kept, are those that
-- were waiting; `flush` reports that all was sent exactly if no write is pending; and it does not
-- report that together with an error.
pub flush_keeps :
    (results : List Sent) (c : Connection)
    → let (f, after) = flush results c in
      (f.wire ++ after.write_buffer ≡ c.write_buffer)
      × (has_pending_writes after ≡ not f.all_sent)
      × (f.has_error ≡ true → f.all_sent ≡ false)
unfolding flush has_pending_writes
flush_keeps results c =
    let (kept, sent_iff, error) = flush_loop_keeps results c.write_buffer in
    let f = flush_loop results c.write_buffer in (kept, pending f.all_sent f.unsent sent_iff, error)

-- A `send` that takes at least one byte.
abbrev pub takes : Sent → Bool
takes (accepted n) = true
takes nothing = false
takes would_block = false
takes failed = false

abbrev pub all_take : List Sent → Bool
all_take [] = true
all_take (s ∷ ss) = takes s && all_take ss

flush_loop_completes :
    (results : List Sent) (bytes : Bytes)
    → all_take results ≡ true
    → length bytes ≤ length results
    → (flush_loop results bytes).all_sent ≡ true
unfolding flush_loop
flush_loop_completes results [] t l = refl
flush_loop_completes [] (b ∷ bs) t l = absurd (omega arith)
flush_loop_completes (accepted n ∷ results) (b ∷ bs) t l =
    flush_loop_completes results (drop n bs) t (omega (arith, length-drop n bs))
flush_loop_completes (nothing ∷ results) (b ∷ bs) t l = ground arith
flush_loop_completes (would_block ∷ results) (b ∷ bs) t l = ground arith
flush_loop_completes (failed ∷ results) (b ∷ bs) t l = ground arith

-- If each `send` takes at least one byte, as many calls as there are bytes empty the buffer.
flush_completes :
    (results : List Sent) (c : Connection)
    → all_take results ≡ true
    → length c.write_buffer ≤ length results
    → let (f, after) = flush results c in
      (f.all_sent ≡ true) × (f.wire ≡ c.write_buffer) × (after.write_buffer ≡ [])
unfolding flush
flush_completes results c t l =
    let (kept, sent_iff, error) = flush_loop_keeps results c.write_buffer in
    let f = flush_loop results c.write_buffer in
    let done = flush_loop_completes results c.write_buffer t l in
    let emptied = sent_iff.0 done in
    (done, sym (append-nil f.wire) ∙ ap (◌++◌ f.wire) (sym emptied) ∙ kept, emptied)
