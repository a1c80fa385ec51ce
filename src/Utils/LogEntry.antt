-- ===== src/Utils/LogEntry.antt =====
-- The entries of `Logger` (include/Utils/Logger.h, src/Utils/Logger.cpp) and their two formats. A thread
-- id and a duration are byte strings, as a stream prints them; `std::put_time` for a number of seconds
-- is a parameter.
pub mod Escape
use c_http_1_1_server.Base.{
  ℕ, zero, suc, ◌/◌, ◌%◌, Bool, true, false, not, ◌&&◌, ◌||◌, ◌==◌, List, [], ◌∷◌, ◌++◌, Option,
  none, some, if◌then◌else◌, ltb, leb, Bytes, codes,
}
use c_http_1_1_server.Http.Numbers.{to_string}

pub data Level : Type 0 where
  info warn error debug : Level

pub data LogFormat : Type 0 where
  text json : LogFormat

-- `fd` is `none` for a negative one; `timestamp` in nanoseconds.
pub record LogEntry : Type 0 where
  pub level : Level
  pub message : Bytes
  pub fd : Option ℕ
  pub thread_id : Bytes
  pub timestamp : ℕ
  pub method : Bytes
  pub path : Bytes
  pub status_code : ℕ
  pub duration_ms : Bytes

-- `log`'s entry.
unfoldable pub plain_entry : Level → Option ℕ → Bytes → Bytes → ℕ → LogEntry
plain_entry level fd msg thread_id now = record {
  level = level;
  message = msg;
  fd = fd;
  thread_id = thread_id;
  timestamp = now;
  method = [];
  path = [];
  status_code = 0;
  duration_ms = codes "0.00";
}

unfoldable pub level_of : ℕ → Level
level_of status =
    if leb 500 status || status == 0
    then error
    else if leb 400 status && ltb status 500
    then warn
    else info

-- `log_http`'s entry.
unfoldable pub http_entry : Option ℕ → Bytes → Bytes → ℕ → Bytes → Bytes → ℕ → LogEntry
unfolding level_of
http_entry fd method path status duration_ms thread_id now = record {
  level = level_of status;
  message =
      codes "\""
      ++ method
      ++ codes " "
      ++ path
      ++ codes "\" "
      ++ to_string status
      ++ codes " - "
      ++ duration_ms
      ++ codes "ms";
  fd = fd;
  thread_id = thread_id;
  timestamp = now;
  method = method;
  path = path;
  status_code = status;
  duration_ms = duration_ms;
}

-- `trace_lock`'s message.
unfoldable pub lock_message : Bytes → Bytes → Bytes
lock_message mutex_name action = codes "[MUTEX] " ++ action ++ codes " " ++ mutex_name

unfoldable pub escape_char : ℕ → Bytes
escape_char c =
    if c == b'"'
    then codes "\\\""
    else if c == b'\\'
    then codes "\\\\"
    else if c == 8
    then codes "\\b"
    else if c == 12
    then codes "\\f"
    else if c == b'\n'
    then codes "\\n"
    else if c == 27
    then codes "\\e"
    else if c == b'\r'
    then codes "\\r"
    else if c == b'\t'
    then codes "\\t"
    else c ∷ []

unfoldable pub escape_json : Bytes → Bytes
unfolding escape_char
escape_json [] = []
escape_json (c ∷ input) = escape_char c ++ escape_json input

abbrev pub lvl_str : Level → Bytes
lvl_str debug = codes "DEBUG"
lvl_str info = codes "INFO "
lvl_str warn = codes "WARN "
lvl_str error = codes "ERROR"

-- `std::setw(3)` with `0` as the fill.
unfoldable pub three_digits : ℕ → Bytes
three_digits n =
    if ltb n 10
    then codes "00" ++ to_string n
    else if ltb n 100
    then codes "0" ++ to_string n
    else to_string n

abbrev pub seconds : ℕ → ℕ
seconds timestamp = timestamp / 1000000000

abbrev pub milliseconds : ℕ → ℕ
milliseconds timestamp = timestamp / 1000000 % 1000

abbrev pub text_fd : Option ℕ → Bytes
text_fd none = []
text_fd (some fd) = codes "[FD " ++ to_string fd ++ codes "] "

abbrev pub json_fd : Option ℕ → Bytes
json_fd none = []
json_fd (some fd) = codes "\"fd\":" ++ to_string fd ++ codes ","

-- The fields of a request, by the method of the entry.
unfoldable pub json_http : Bytes → LogEntry → Bytes
unfolding escape_json
json_http [] entry = []
json_http (c ∷ method) entry =
    codes "\"method\":\""
    ++ escape_json entry.method
    ++ codes "\","
    ++ codes "\"path\":\""
    ++ escape_json entry.path
    ++ codes "\","
    ++ codes "\"status\":"
    ++ to_string entry.status_code
    ++ codes ","
    ++ codes "\"duration_ms\":"
    ++ entry.duration_ms
    ++ codes ","

module _ (put_time : ℕ → Bytes) where
  unfoldable pub format_text : LogEntry → Bytes
  unfolding three_digits
  format_text entry =
      codes "["
      ++ put_time (seconds entry.timestamp)
      ++ codes "."
      ++ three_digits (milliseconds entry.timestamp)
      ++ codes "] "
      ++ codes "["
      ++ lvl_str entry.level
      ++ codes "] "
      ++ codes "[TID "
      ++ entry.thread_id
      ++ codes "] "
      ++ text_fd entry.fd
      ++ entry.message

  unfoldable pub format_json : LogEntry → Bytes
  unfolding three_digits json_http escape_json
  format_json entry =
      codes "{"
      ++ codes "\"timestamp\":\""
      ++ put_time (seconds entry.timestamp)
      ++ codes "."
      ++ three_digits (milliseconds entry.timestamp)
      ++ codes "Z\","
      ++ codes "\"level\":\""
      ++ lvl_str entry.level
      ++ codes "\","
      ++ codes "\"tid\":\""
      ++ entry.thread_id
      ++ codes "\","
      ++ json_fd entry.fd
      ++ json_http entry.method entry
      ++ codes "\"message\":\""
      ++ escape_json entry.message
      ++ codes "\""
      ++ codes "}"
