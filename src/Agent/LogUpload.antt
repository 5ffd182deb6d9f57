-- ===== src/Agent/LogUpload.antt =====
-- The log loop of `runAgent` in cmd/agent/main.go, with `UploadLogs` of internal/uploader/uploader.go:
-- the loop sends what the logger has buffered, and logs itself.
pub mod Busy
use monitor_agent.Base.{
  ℕ, suc, ◌+◌, ◌≤◌, ◌≡◌, refl, arith, Bool, true, false, Option, none, some, List, [], ◌∷◌, ◌++◌,
  Text, lit, length, length-append, drop, leb, if◌then◌else◌, Bool-cases, inl, inr, append-nil,
}
use monitor_agent.Base.Int.{ℤ, pos, pos_part, leb_ℤ}
use monitor_agent.Logger.{
  LogEntry, Log, append_entry, claim, buffer, debug, warn, drain_entries, max_entries,
}
use monitor_agent.Cache.{Cache, Entry, logs}
use monitor_agent.Agent.Recovery.{push_all}
use monitor_agent.Agent.Metrics.{Batch}

-- the logger's variables, and the calls of `UploadLogs` made so far
pub record Uploads : Type 0 where
  pub log : Log
  pub batches : List (Batch LogEntry)
  -- the cache that this loop leaves, if there is one
  pub cache : Option Cache

module _ (entry_size : Entry → ℕ) (encode : LogEntry → Option Text) (batch_size : ℤ) where
  -- the loop of `Push` calls after a refusal, if there is a cache; their errors are dropped
  unfoldable pub push_refused : (ℕ → ℕ) → List LogEntry → Option Cache → Option Cache
  push_refused clock items none = none
  push_refused clock items (some c) = some (push_all entry_size encode logs clock 0 items c)

  -- `UploadLogs` on entries that are there, and what the loop does on an error
  unfoldable pub send : Bool → Text → (ℕ → ℕ) → List LogEntry → Log → Uploads → Uploads
  unfolding push_refused
  send true now clock items rest s = record {
    log = debug (lit "logs uploaded") now rest;
    batches = s.batches ++ record { items = items; accepted = true; clock = clock } ∷ [];
    cache = s.cache;
  }
  send false now clock items rest s = record {
    log = warn (lit "upload logs failed") now rest;
    batches = s.batches ++ record { items = items; accepted = false; clock = clock } ∷ [];
    cache = push_refused clock items s.cache;
  }

  -- what is done with the drained entries
  unfoldable pub forward : Bool → Text → (ℕ → ℕ) → List LogEntry × Log → Uploads → Uploads
  forward accepts now clock ([], rest) s = record s { log = rest }
  forward accepts now clock (e ∷ es, rest) s = send accepts now clock (e ∷ es) rest s

  -- the case `<-ticker.C`: whether an upload is accepted, the time of the entry that is logged, and the
  -- times of the pushes
  unfoldable pub tick : Bool × Text × (ℕ → ℕ) → Uploads → Uploads
  unfolding forward
  tick (accepts, now, clock) s = forward accepts now clock (drain_entries batch_size s.log) s

  unfoldable pub run : List (Bool × Text × (ℕ → ℕ)) → Uploads → Uploads
  run [] s = s
  run (t ∷ ts) s = run ts (tick t s)

  -- the upload of the case `<-ctx.Done()`; its error is dropped, and nothing is pushed
  unfoldable pub send_last : Bool → Text → (ℕ → ℕ) → List LogEntry × Log → Uploads → Uploads
  send_last accepts now clock ([], rest) s = record s { log = rest }
  send_last accepts now clock (e ∷ es, rest) s = record {
    log = if accepts then debug (lit "logs uploaded") now rest else rest;
    batches = s.batches ++ record { items = e ∷ es; accepted = accepts; clock = clock } ∷ [];
    cache = s.cache;
  }

  -- the case `<-ctx.Done()`
  unfoldable pub stop : Bool × Text × (ℕ → ℕ) → Uploads → Uploads
  unfolding send_last
  stop (accepts, now, clock) s = send_last accepts now clock (drain_entries batch_size s.log) s
