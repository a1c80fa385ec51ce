-- ===== src/Utils/Logger/Calls.antt =====
-- Runs of the logger: one behind the other, how long its queue gets, and after its end.
use c_http_1_1_server.Base.{
  ℕ, ◌+◌, ◌≤◌, ◌≡◌, refl, ap, ◌∙◌, arith, false, List, [], ◌∷◌, ◌++◌, length, length-append,
  if◌then◌else◌, Bytes,
}
use c_http_1_1_server.Utils.LogEntry.{LogEntry}
use c_http_1_1_server.Utils.Logger.{
  Logger, push, write_entry, take_front, process_round, waits, leaves,
}
use c_http_1_1_server.Utils.Logger.History.{Call, logs, works, logged, settled, run_calls}

pub logged-append : (cs ds : List Call) → logged (cs ++ ds) ≡ logged cs ++ logged ds
logged-append [] ds = refl
logged-append (logs entry ∷ cs) ds = ap (◌∷◌ entry) (logged-append cs ds)
logged-append (works ∷ cs) ds = logged-append cs ds

module _ (local_time gm_time : ℕ → Bytes) where
  pub run_calls-append :
      (cs ds : List Call) (l : Logger)
      → run_calls local_time gm_time (cs ++ ds) l
        ≡ run_calls local_time gm_time ds (run_calls local_time gm_time cs l)
  unfolding run_calls
  run_calls-append [] ds l = refl
  run_calls-append (logs entry ∷ cs) ds l = run_calls-append cs ds _
  run_calls-append (works ∷ cs) ds l = run_calls-append cs ds _

  push_queue : (entry : LogEntry) (l : Logger) → length (push entry l).queue ≤ length l.queue + 1
  unfolding push
  push_queue entry l = grind (arith, length-append l.queue (entry ∷ []))

  round_queue :
      (l : Logger) (q : List LogEntry)
      → l.queue ≡ q
      → length (settled l (take_front local_time gm_time l q)).queue ≤ length q
  unfolding write_entry
  round_queue l [] e = ground (arith, e)
  round_queue l (entry ∷ rest) e = omega arith

  -- The queue holds at most an entry for each call.
  pub run_calls_queue :
      (cs : List Call) (l : Logger)
      → length (run_calls local_time gm_time cs l).queue ≤ length l.queue + length cs
  unfolding run_calls process_round
  run_calls_queue [] l = omega arith
  run_calls_queue (logs entry ∷ cs) l =
      omega (arith, run_calls_queue cs (push entry l), push_queue entry l)
  run_calls_queue (works ∷ cs) l = omega (
    arith,
    run_calls_queue cs (settled l (take_front local_time gm_time l l.queue)),
    round_queue l l.queue refl,
  )

  -- A logger that has stopped, with nothing left to write, takes nothing more.
  pub run_calls_stopped :
      (cs : List Call) (l : Logger)
      → l.running ≡ false
      → l.queue ≡ []
      → run_calls local_time gm_time cs l ≡ l
  unfolding run_calls process_round push
  run_calls_stopped [] l off done = refl
  run_calls_stopped (logs entry ∷ cs) l off done =
      ap
        (λ b.
          run_calls local_time gm_time cs
            (if b then record l { queue = l.queue ++ entry ∷ [] } else l))
        off
      ∙ run_calls_stopped cs l off done
  run_calls_stopped (works ∷ cs) l off done =
      ap (λ q. run_calls local_time gm_time cs (settled l (take_front local_time gm_time l q))) done
      ∙ ap (λ b. run_calls local_time gm_time cs (settled l (if b then waits else leaves))) off
      ∙ run_calls_stopped cs l off done
