-- ===== src/Logger/Examples.antt =====
-- The buffer on three entries.
use monitor_agent.Base.{ℕ, ◌≡◌, refl, arith, [], ◌∷◌, ◌++◌, lit, empty}
use mathlib.Core.List.{Perm}
use monitor_agent.Logger.Threads.{Threads, claim_number, append, drain, Reach, begin, later}
use monitor_agent.Logger.Threads.Numbers.{numbers, used, Reach-Perm}
use monitor_agent.Base.Int.{pos}
use monitor_agent.Logger.{claim, append_entry, drain_entries, LogEntry, Log, max_entries}
use monitor_agent.Logger.Fifo.{append_all, newest, append_all_lem}

abbrev entry : ℕ → LogEntry
entry n = record {
  level = lit "INFO";
  source = lit "agent";
  message = lit "tick";
  time = empty;
  sequence = n;
}

abbrev two_entries : Log
two_entries = record { sequence = 2; entries = entry 1 ∷ entry 2 ∷ [] }

append_all_lem_example :
    (append_all (entry 3 ∷ []) two_entries).entries
    ≡ newest max_entries (two_entries.entries ++ entry 3 ∷ [])
append_all_lem_example = append_all_lem (entry 3 ∷ []) two_entries (omega arith)

-- Two calls of `buffer`: the later number is appended first, and drained before the other comes.
abbrev crossed : Threads
crossed = record {
  log = record { sequence = 2; entries = entry 1 ∷ [] };
  claimed = [];
  gone = entry 2 ∷ [];
}

crossed-Reach : Reach crossed
unfolding claim append_entry drain_entries
crossed-Reach =
    later
      (later
        (later (later (later begin claim_number) claim_number) (append [] (1 ∷ []) (entry 2) refl))
        (drain (pos 5)))
      (append [] [] (entry 1) refl)

Reach-Perm_example : Perm (numbers 2) (used crossed)
Reach-Perm_example = Reach-Perm crossed-Reach
