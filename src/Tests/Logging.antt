-- ===== src/Tests/Logging.antt =====
-- What the logger writes.
use c_http_1_1_server.Base.{
  ℕ, ◌≡◌, arith, true, false, List, [], ◌∷◌, ◌++◌, some, none, if◌then◌else◌, Bytes, codes,
}
use c_http_1_1_server.Utils.LogEntry
use c_http_1_1_server.Utils.LogEntry.{
  LogEntry, LogFormat, escape_json, http_entry, level_of, format_json, format_text, plain_entry,
}
use c_http_1_1_server.Utils.Logger.{
  Logger, fresh, init, push, ended, stop, process_round, write_entry,
}
use c_http_1_1_server.Utils.LogEntry.Escape.{read_string, all_printable, read-escape_json}
use c_http_1_1_server.Utils.Logger.History.{
  Call, logs, works, logged, run_calls, lines, stop_writes_all,
}

abbrev noon : ℕ → Bytes
noon s = codes "12:00:00"

abbrev entry : LogEntry
entry = plain_entry LogEntry.Level.info none (codes "started") (codes "1") 5000000

-- A path that tries to end the string.
abbrev sly : Bytes
sly = codes "/\"}\n{"

read-escape_json_example :
    read_string false (escape_json sly ++ b'"' ∷ codes ",")
    ≡ (if all_printable sly then some (sly, codes ",") else none)
read-escape_json_example = read-escape_json sly (codes ",")

abbrev calls : List Call
calls = logs entry ∷ works ∷ logs entry ∷ []

stop_writes_all_example :
    let l = run_calls noon noon calls (init true LogFormat.json fresh) in
    (l' : Logger) × (stop noon noon 2 l ≡ ended l')
    × (l'.queue ≡ [])
    × (l'.output ≡ lines noon noon LogFormat.json (logged calls))
    × (l'.log_file ≡ (if true then lines noon noon LogFormat.json (logged calls) else []))
unfolding run_calls push init process_round write_entry
stop_writes_all_example = stop_writes_all noon noon true LogFormat.json calls 2 (omega arith)
