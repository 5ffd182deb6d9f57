-- ===== src/Agent/LogUpload/Busy.antt =====
-- The log loop feeds itself.
use monitor_agent.Base.{
  ℕ, Option, suc, ◌+◌, ◌≤◌, ◌≡◌, arith, Bool, true, false, List, [], ◌∷◌, Text, length,
  length-append, length-take, leb, if◌then◌else◌,
}
use monitor_agent.Base.Int.{ℤ, pos_part}
use monitor_agent.Logger.{
  LogEntry, Log, append_entry, claim, buffer, debug, warn, drain_entries, max_entries, tail,
}
use monitor_agent.Cache.{Entry}
use monitor_agent.Agent.LogUpload.{Uploads, send, forward, tick, run}

length-append_entry : (e : LogEntry) (s : Log) → 1 ≤ length (append_entry e s).entries
unfolding append_entry
length-append_entry e s = omega (
  arith,
  length-append (if leb max_entries (length s.entries) then tail s.entries else s.entries) (e ∷ []),
)

length-buffer :
    (level source msg now : Text) (s : Log) → 1 ≤ length (buffer level source msg now s).entries
unfolding buffer
length-buffer level source msg now s = length-append_entry _ (claim s).1

length-drain_entries :
    (limit : ℤ) (s : Log) → 1 ≤ length s.entries → 1 ≤ length (drain_entries limit s).0
unfolding drain_entries
length-drain_entries limit s h = ground (arith, length-take (pos_part limit) s.entries)

module _ (entry_size : Entry → ℕ) (encode : LogEntry → Option Text) (batch_size : ℤ) where
  -- the state has something to send, and one batch more
  record IsBusy (before after : Uploads) : Type 0 where
    pending : 1 ≤ length after.log.entries
    more : length after.batches ≡ suc (length before.batches)

  send-IsBusy :
      (accepts : Bool) (now : Text) (clock : ℕ → ℕ) (items : List LogEntry) (rest : Log)
      (s : Uploads)
      → IsBusy s (send entry_size encode batch_size accepts now clock items rest s)
  unfolding send debug warn
  send-IsBusy true now clock items rest s = record {
    pending = length-buffer _ _ _ now rest;
    more = omega (
      arith,
      length-append s.batches (record { items = items; accepted = true; clock = clock } ∷ []),
    );
  }
  send-IsBusy false now clock items rest s = record {
    pending = length-buffer _ _ _ now rest;
    more = omega (
      arith,
      length-append s.batches (record { items = items; accepted = false; clock = clock } ∷ []),
    );
  }

  forward-IsBusy :
      (accepts : Bool) (now : Text) (clock : ℕ → ℕ) (d : List LogEntry × Log) (s : Uploads)
      → 1 ≤ length d.0
      → IsBusy s (forward entry_size encode batch_size accepts now clock d s)
  unfolding forward
  forward-IsBusy accepts now clock ([], rest) s h = absurd (omega arith)
  forward-IsBusy accepts now clock (e ∷ es, rest) s h =
      send-IsBusy accepts now clock (e ∷ es) rest s

  tick-IsBusy :
      (t : Bool × Text × (ℕ → ℕ)) (s : Uploads)
      → 1 ≤ length s.log.entries
      → IsBusy s (tick entry_size encode batch_size t s)
  unfolding tick
  tick-IsBusy (accepts, now, clock) s h =
      forward-IsBusy accepts now clock (drain_entries batch_size s.log) s
        (length-drain_entries batch_size s.log h)

  -- Once an entry waits, every later tick sends a batch, also when nothing else logs: each upload
  -- buffers an entry of its own.
  pub length-run :
      (ts : List (Bool × Text × (ℕ → ℕ))) (s : Uploads)
      → 1 ≤ length s.log.entries
      → length (run entry_size encode batch_size ts s).batches ≡ length s.batches + length ts
  unfolding run
  length-run [] s h = omega arith
  length-run (t ∷ ts) s h =
      let b = tick-IsBusy t s h in
      omega (arith, length-run ts (tick entry_size encode batch_size t s) b.pending, b.more)
