-- ===== src/Logger/Threads.antt =====
-- `buffer` and `DrainEntries` of pkg/logger/logger.go called by several goroutines: `buffer` takes its
-- number before it takes the lock, so that other calls come in between.
pub mod Numbers
use monitor_agent.Base.{ℕ, ◌≡◌, List, [], ◌∷◌, ◌++◌, Text, length, leb, if◌then◌else◌}
use monitor_agent.Base.Int.{ℤ}
use monitor_agent.Logger.{LogEntry, Log, max_entries, claim, append_entry, drain_entries}

-- the entry that `append_entry` drops, if any
abbrev pub first_of : List LogEntry → List LogEntry
first_of [] = []
first_of (e ∷ es) = e ∷ []

abbrev pub dropped : Log → List LogEntry
dropped s = if leb max_entries (length s.entries) then first_of s.entries else []

pub record Threads : Type 0 where
  pub log : Log
  -- the numbers of the calls of `buffer` that have not appended their entry
  pub claimed : List ℕ
  -- the entries that are drained or dropped
  pub gone : List LogEntry

abbrev pub start : Threads
start = record { log = record { sequence = 0; entries = [] }; claimed = []; gone = [] }

pub data Step (t : Threads) : Threads → Type 0 where
  claim_number : Step t (record t { log = (claim t.log).1; claimed = (claim t.log).0 ∷ t.claimed })
  append :
      (before after : List ℕ) (e : LogEntry)
      → t.claimed ≡ before ++ e.sequence ∷ after
      → Step t (record {
        log = append_entry e t.log;
        claimed = before ++ after;
        gone = dropped t.log ++ t.gone;
      })
  drain :
      (limit : ℤ)
      → Step t (record t {
        log = (drain_entries limit t.log).1;
        gone = (drain_entries limit t.log).0 ++ t.gone;
      })

pub data Reach : Threads → Type 0 where
  begin : Reach start
  later : {s t : Threads} → Reach s → Step s t → Reach t
