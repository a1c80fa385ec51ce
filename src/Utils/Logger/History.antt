-- ===== src/Utils/Logger/History.antt =====
-- The entries of a run of the logger, from `init` to `stop`.
use c_http_1_1_server.Base.{
  ℕ, zero, suc, ◌<◌, ◌≡◌, refl, sym, ap, ◌∙◌, arith, Bool, true, false, List, [], ◌∷◌, ◌++◌,
  append_assoc, append-nil, map, map-append, length, if◌then◌else◌, Bytes, subst,
}
use c_http_1_1_server.Utils.LogEntry.{LogEntry, LogFormat}
use c_http_1_1_server.Utils.Logger.{
  Logger, fresh, init, push, formatted, write_entry, Round, waits, leaves, goes_on, take_front,
  process_round, ended, process_queue, stop, close_file, after_round,
}

-- A call of `log` or `log_http` with its entry, or a round of the worker.
pub data Call : Type 0 where
  logs : LogEntry → Call
  works : Call

abbrev pub logged : List Call → List LogEntry
logged [] = []
logged (logs entry ∷ calls) = entry ∷ logged calls
logged (works ∷ calls) = logged calls

-- The logger after a round.
abbrev pub settled : Logger → Round → Logger
settled l waits = l
settled l leaves = l
settled l (goes_on l') = l'

abbrev nothing : List Bytes
nothing = []

none_written : (opened : Bool) → nothing ≡ (if opened then nothing else nothing)
none_written true = refl
none_written false = refl

settled_idle : (l : Logger) (b : Bool) → settled l (if b then waits else leaves) ≡ l
settled_idle l true = refl
settled_idle l false = refl

module _ (local_time gm_time : ℕ → Bytes) where
  unfoldable pub run_calls : List Call → Logger → Logger
  unfolding push process_round
  run_calls [] l = l
  run_calls (logs entry ∷ calls) l = run_calls calls (push entry l)
  run_calls (works ∷ calls) l = run_calls calls (settled l (process_round local_time gm_time l))

  abbrev pub lines : LogFormat → List LogEntry → List Bytes
  lines fmt entries = map (formatted local_time gm_time fmt) entries

  -- What is written and what waits are the entries so far, and the file has what the output has.
  record Records (opened : Bool) (fmt : LogFormat) (entries : List LogEntry) (l : Logger)
      : Type 0 where
    same_format : l.format ≡ fmt
    same_file : l.log_file_open ≡ opened
    in_order : l.output ++ lines fmt l.queue ≡ lines fmt entries
    copied : l.log_file ≡ (if opened then l.output else [])

module _ (local_time gm_time : ℕ → Bytes) (opened : Bool) (fmt : LogFormat) where
  copied_line :
      (line : Bytes) (l : Logger)
      → l.log_file_open ≡ opened
      → l.log_file ≡ (if opened then l.output else [])
      → (if l.log_file_open then l.log_file ++ line ∷ [] else l.log_file)
        ≡ (if opened then l.output ++ line ∷ [] else [])
  copied_line line l e c =
      ground (arith, e, c, λ (d : l.log_file ≡ l.output). ap (λ x. x ++ line ∷ []) d)

  write_entry-Records :
      (entry : LogEntry) (rest entries : List LogEntry) (l : Logger)
      → l.queue ≡ entry ∷ rest
      → Records local_time gm_time opened fmt entries l
      → Records local_time gm_time opened fmt entries
          (write_entry local_time gm_time entry (record l { queue = rest }))
  unfolding write_entry
  write_entry-Records entry rest entries l e r =
      let line = formatted local_time gm_time l.format entry in
      record {
        same_format = r.same_format;
        same_file = r.same_file;
        in_order =
            append_assoc l.output (line ∷ []) (lines local_time gm_time fmt rest)
            ∙ ap
                (λ f.
                  l.output
                  ++ formatted local_time gm_time f entry ∷ lines local_time gm_time fmt rest)
                r.same_format
            ∙ ap (λ q. l.output ++ lines local_time gm_time fmt q) (sym e)
            ∙ r.in_order;
        copied = copied_line line l r.same_file r.copied;
      }

  push-Records :
      (entry : LogEntry) (entries : List LogEntry) (l : Logger)
      → Records local_time gm_time opened fmt entries l
      → Records local_time gm_time opened fmt
          (entries ++ entry ∷ [])
          (record l { queue = l.queue ++ entry ∷ [] })
  push-Records entry entries l r =
      let f = formatted local_time gm_time fmt in
      record {
        same_format = r.same_format;
        same_file = r.same_file;
        in_order =
            ap (λ x. l.output ++ x) (map-append f l.queue (entry ∷ []))
            ∙ sym (append_assoc l.output (lines local_time gm_time fmt l.queue) (f entry ∷ []))
            ∙ ap (λ x. x ++ f entry ∷ []) r.in_order
            ∙ sym (map-append f entries (entry ∷ []));
        copied = r.copied;
      }

  -- A round keeps the records, and keeps the logger running.
  round-Records :
      (entries : List LogEntry) (l : Logger) (q : List LogEntry)
      → l.queue ≡ q
      → Records local_time gm_time opened fmt entries l
      → Records local_time gm_time opened fmt entries
          (settled l (take_front local_time gm_time l q))
  round-Records entries l [] e r =
      subst (Records local_time gm_time opened fmt entries) (sym (settled_idle l l.running)) r
  round-Records entries l (entry ∷ rest) e r = write_entry-Records entry rest entries l e r

  round-running :
      (l : Logger) (q : List LogEntry)
      → (settled l (take_front local_time gm_time l q)).running ≡ l.running
  unfolding write_entry
  round-running l [] = ap (λ (x : Logger). x.running) (settled_idle l l.running)
  round-running l (entry ∷ rest) = refl

  run_calls-Records :
      (calls : List Call) (entries : List LogEntry) (l : Logger)
      → l.running ≡ true
      → Records local_time gm_time opened fmt entries l
      → (Records local_time gm_time opened fmt
          (entries ++ logged calls)
          (run_calls local_time gm_time calls l))
        × ((run_calls local_time gm_time calls l).running ≡ true)
  unfolding run_calls process_round push
  run_calls-Records [] entries l on r =
      (subst (λ es. Records local_time gm_time opened fmt es l) (sym (append-nil entries)) r, on)
  run_calls-Records (logs entry ∷ calls) entries l on r =
      let pushed = record l { queue = l.queue ++ entry ∷ [] } in
      let (r', on') =
        run_calls-Records calls (entries ++ entry ∷ []) pushed on
          (push-Records entry entries l r) in
      subst
        (λ (x : Logger).
          Records local_time gm_time opened fmt (entries ++ entry ∷ logged calls)
            (run_calls local_time gm_time calls x)
          × ((run_calls local_time gm_time calls x).running ≡ true))
        (sym (ap (λ b. if b then pushed else l) on))
        (
          subst
              (λ es.
                Records local_time gm_time opened fmt es
                  (run_calls local_time gm_time calls pushed))
              (append_assoc entries (entry ∷ []) (logged calls)) r',
          on',
        )
  run_calls-Records (works ∷ calls) entries l on r =
      run_calls-Records calls entries _ (round-running l l.queue ∙ on)
        (round-Records entries l l.queue refl r)

  -- Alone with the queue of a logger that is stopped, the worker ends with all written.
  process_queue-Records :
      (n : ℕ) (entries : List LogEntry) (l : Logger) (q : List LogEntry)
      → l.queue ≡ q
      → length q < n
      → l.running ≡ false
      → Records local_time gm_time opened fmt entries l
      → (l' : Logger) × (process_queue local_time gm_time n l ≡ ended l')
        × (l'.queue ≡ [])
        × (l'.running ≡ false)
        × Records local_time gm_time opened fmt entries l'
  unfolding process_queue process_round write_entry
  process_queue-Records zero entries l q e b off r = absurd (omega (arith, b))
  process_queue-Records (suc n) entries l [] e b off r = (
    l,
    ap (λ q. after_round (process_queue local_time gm_time n) l (take_front local_time gm_time l q))
          e
        ∙ ap (λ b. after_round (process_queue local_time gm_time n) l (if b then waits else leaves))
            off,
    e,
    off,
    r,
  )
  process_queue-Records (suc n) entries l (entry ∷ rest) e b off r =
      let l' = write_entry local_time gm_time entry (record l { queue = rest }) in
      let (after, p, done, off', r') =
        process_queue-Records n entries l' rest refl (omega (arith, b)) off
          (write_entry-Records entry rest entries l e r) in
      (
        after,
        ap
              (λ q.
                after_round (process_queue local_time gm_time n) l
                  (take_front local_time gm_time l q))
              e
            ∙ p,
        done,
        off',
        r',
      )

  pub stop_ends :
      (calls : List Call) (fuel : ℕ)
      → let l = run_calls local_time gm_time calls (init opened fmt fresh) in
        length l.queue < fuel
        → (l' : Logger) × (stop local_time gm_time fuel l ≡ ended l')
          × (l'.queue ≡ [])
          × (l'.running ≡ false)
          × (l'.output ≡ lines local_time gm_time fmt (logged calls))
          × (l'.log_file ≡ (if opened then lines local_time gm_time fmt (logged calls) else []))
  unfolding stop init
  stop_ends calls fuel enough =
      let begun = init opened fmt fresh in
      let l = run_calls local_time gm_time calls begun in
      let (r, on) = run_calls-Records calls [] begun refl (record {
        same_format = refl;
        same_file = refl;
        in_order = refl;
        copied = none_written opened;
      }) in
      let (l', p, done, off, r') =
        process_queue-Records fuel (logged calls) (record l { running = false }) l.queue refl enough
          refl
          (record {
            same_format = r.same_format;
            same_file = r.same_file;
            in_order = r.in_order;
            copied = r.copied;
          }) in
      let written : l'.output ≡ lines local_time gm_time fmt (logged calls) =
        sym (append-nil l'.output)
        ∙ ap (λ q. l'.output ++ lines local_time gm_time fmt q) (sym done)
        ∙ r'.in_order in
      (
        record l' { log_file_open = false },
        ap
              (λ b.
                if b
                then close_file
                    (process_queue local_time gm_time fuel (record l { running = false }))
                else ended l)
              on
            ∙ ap close_file p,
        done,
        off,
        written,
        r'.copied ∙ ap (λ x. if opened then x else []) written,
      )

  -- Every entry that is logged between a first `init` and `stop` is written by the time `stop` returns,
  -- once and in the order of the calls, to the standard output, and the same to the file if it could be
  -- opened, whichever rounds the worker has made in between; `stop` returns, and nothing waits then.
  pub stop_writes_all :
      (calls : List Call) (fuel : ℕ)
      → let l = run_calls local_time gm_time calls (init opened fmt fresh) in
        length l.queue < fuel
        → (l' : Logger) × (stop local_time gm_time fuel l ≡ ended l')
          × (l'.queue ≡ [])
          × (l'.output ≡ lines local_time gm_time fmt (logged calls))
          × (l'.log_file ≡ (if opened then lines local_time gm_time fmt (logged calls) else []))
  stop_writes_all calls fuel enough =
      let (l', p, done, _, written, copied) = stop_ends calls fuel enough in
      (l', p, done, written, copied)
