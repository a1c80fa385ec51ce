-- ===== src/Utils/Logger.antt =====
-- `Logger` (include/Utils/Logger.h, src/Utils/Logger.cpp): its queue and its worker. `std::put_time` of
-- the local time and of `gmtime` are parameters. The queue is used under its lock.
pub mod History
pub mod Calls
use c_http_1_1_server.Base.{
  ℕ, zero, suc, ◌/◌, ◌%◌, Bool, true, false, not, ◌&&◌, ◌||◌, ◌==◌, List, [], ◌∷◌, ◌++◌, Option,
  none, some, if◌then◌else◌, ltb, leb, Bytes, codes,
}
use c_http_1_1_server.Http.Numbers.{to_string}
use c_http_1_1_server.Utils.LogEntry.{
  Level, LogEntry, LogFormat, text, json, format_text, format_json, plain_entry, http_entry,
  lock_message,
}

-- `output` and `log_file` hold the lines that were written.
pub record Logger : Type 0 where
  pub running : Bool
  pub format : LogFormat
  pub queue : List LogEntry
  pub log_file_open : Bool
  pub output : List Bytes
  pub log_file : List Bytes

abbrev pub fresh : Logger
fresh = record {
  running = false;
  format = text;
  queue = [];
  log_file_open = false;
  output = [];
  log_file = [];
}

-- `opened`: whether the file could be opened.
unfoldable pub init : Bool → LogFormat → Logger → Logger
init opened fmt l =
    if l.running then l else record l { running = true; format = fmt; log_file_open = opened }

-- The end of `log` and of `log_http`.
unfoldable pub push : LogEntry → Logger → Logger
push entry l = if l.running then record l { queue = l.queue ++ entry ∷ [] } else l

-- A line of the program; `fd` is `none` for a negative one.
unfoldable pub log : Level → Option ℕ → Bytes → Bytes → ℕ → Logger → Logger
unfolding push plain_entry
log level fd msg thread_id now l = push (plain_entry level fd msg thread_id now) l

-- The line of a request.
unfoldable pub log_http : Option ℕ → Bytes → Bytes → ℕ → Bytes → Bytes → ℕ → Logger → Logger
unfolding push http_entry
log_http fd method path status duration_ms thread_id now l =
    push (http_entry fd method path status duration_ms thread_id now) l

unfoldable pub trace_lock : Option ℕ → Bytes → Bytes → Bytes → ℕ → Logger → Logger
unfolding log lock_message
trace_lock fd mutex_name action thread_id now l =
    log Level.debug fd (lock_message mutex_name action) thread_id now l

-- One round of `process_queue`: it waits, it leaves the loop, or it writes an entry.
pub data Round : Type 0 where
  waits leaves : Round
  goes_on : Logger → Round

pub data Processed : Type 0 where
  out_of_fuel : Processed
  waiting ended : Logger → Processed

abbrev pub after_round : (Logger → Processed) → Logger → Round → Processed
after_round again l waits = waiting l
after_round again l leaves = ended l
after_round again l (goes_on l') = again l'

abbrev pub close_file : Processed → Processed
close_file out_of_fuel = out_of_fuel
close_file (waiting l) = waiting l
close_file (ended l) = ended (record l { log_file_open = false })

module _ (local_time gm_time : ℕ → Bytes) where
  unfoldable pub formatted : LogFormat → LogEntry → Bytes
  unfolding format_text format_json
  formatted json entry = format_json gm_time entry
  formatted text entry = format_text local_time entry

  unfoldable pub write_entry : LogEntry → Logger → Logger
  unfolding formatted
  write_entry entry l =
      let line = formatted l.format entry in
      record l {
        output = l.output ++ line ∷ [];
        log_file = if l.log_file_open then l.log_file ++ line ∷ [] else l.log_file;
      }

  abbrev pub take_front : Logger → List LogEntry → Round
  take_front l [] = if l.running then waits else leaves
  take_front l (entry ∷ rest) = goes_on (write_entry entry (record l { queue = rest }))

  unfoldable pub process_round : Logger → Round
  unfolding write_entry
  process_round l = take_front l l.queue

  unfoldable pub process_queue : ℕ → Logger → Processed
  unfolding process_round
  process_queue zero l = out_of_fuel
  process_queue (suc fuel) l = after_round (process_queue fuel) l (process_round l)

  -- `stop`: the join waits for the worker, which is alone with the queue.
  unfoldable pub stop : ℕ → Logger → Processed
  unfolding process_queue
  stop fuel l =
      let joined = close_file (process_queue fuel (record l { running = false })) in
      if l.running then joined else ended l

  -- The destructor.
  unfoldable pub destroy : ℕ → Logger → Processed
  unfolding stop
  destroy fuel l = stop fuel l
