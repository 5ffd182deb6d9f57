-- ===== src/Logger.antt =====
-- pkg/logger/logger.go: the buffer of log entries that waits for the upload. The sinks of zap are
-- left out: they do not touch the buffer.
pub mod Fifo
pub mod Threads
mod Examples
use monitor_agent.Base.{
  ℕ, suc, ◌+◌, Bool, ◌||◌, List, [], ◌∷◌, ◌++◌, Text, lit, text_eq, length, take, drop, leb,
  if◌then◌else◌,
}
use monitor_agent.Base.Int.{ℤ, pos, pos_part, leb_ℤ}

pub record LogEntry : Type 0 where
  pub level : Text
  pub source : Text
  pub message : Text
  pub time : Text
  pub sequence : ℕ

-- the package's variables `sequence` and `entries`
pub record Log : Type 0 where
  pub sequence : ℕ
  pub entries : List LogEntry

abbrev pub max_entries : ℕ
max_entries = 1000

pub data Level : Type 0 where
  debug_level info_level warn_level error_level : Level

unfoldable pub parse_level : Text → Level
parse_level s =
    if text_eq s (lit "DEBUG")
    then debug_level
    else if text_eq s (lit "INFO")
    then info_level
    else if text_eq s (lit "WARN")
    then warn_level
    else if text_eq s (lit "ERROR")
    then error_level
    else info_level

abbrev pub tail : List LogEntry → List LogEntry
tail [] = []
tail (e ∷ es) = es

-- `atomic.AddInt64(&sequence, 1)`
unfoldable pub claim : Log → ℕ × Log
claim s = (s.sequence + 1, record s { sequence = s.sequence + 1 })

-- what `buffer` does under the lock
unfoldable pub append_entry : LogEntry → Log → Log
append_entry e s =
    let kept = if leb max_entries (length s.entries) then tail s.entries else s.entries in
    record s { entries = kept ++ e ∷ [] }

-- `buffer`
unfoldable pub buffer : Text → Text → Text → Text → Log → Log
unfolding claim append_entry
buffer level source msg now s =
    let (seq, s') = claim s in
    append_entry
      (record { level = level; source = source; message = msg; time = now; sequence = seq }) s'

unfoldable pub debug : Text → Text → Log → Log
unfolding buffer
debug msg now = buffer (lit "DEBUG") (lit "agent") msg now

unfoldable pub info : Text → Text → Log → Log
unfolding buffer
info msg now = buffer (lit "INFO") (lit "agent") msg now

unfoldable pub warn : Text → Text → Log → Log
unfolding buffer
warn msg now = buffer (lit "WARN") (lit "agent") msg now

unfoldable pub error : Text → Text → Log → Log
unfolding buffer
error msg now = buffer (lit "ERROR") (lit "agent") msg now

-- `DrainEntries`
unfoldable pub drain_entries : ℤ → Log → List LogEntry × Log
drain_entries limit s =
    if leb_ℤ limit (pos 0) || leb_ℤ (pos (length s.entries)) limit
    then (s.entries, record s { entries = [] })
    else (take (pos_part limit) s.entries, record s { entries = drop (pos_part limit) s.entries })

unfoldable pub entry_count : Log → ℕ
entry_count s = length s.entries
