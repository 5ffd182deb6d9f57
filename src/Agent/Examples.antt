-- ===== src/Agent/Examples.antt =====
-- The loops on short runs.
use monitor_agent.Base.{
  ℕ, ◌+◌, ◌*◌, ◌≡◌, refl, arith, Bool, true, false, Option, none, some, zero, suc, ◌≤◌, List, [],
  ◌∷◌, ◌++◌, Text, lit, empty, length, if◌then◌else◌, text_eq,
}
use monitor_agent.Base.Int.{pos}
use monitor_agent.State.{recent_message_activity_within}
use monitor_agent.Agent.Heartbeat.Recorded.{IsCollected, counted, run_beats}
use monitor_agent.Agent.Heartbeat.Cooldown.{due-run_beats}
use monitor_agent.Agent.Heartbeat.{
  Reading, start, due, should_collect, beat, collect, attach, cooled, second,
  message_activity_cooldown, agents_change_cooldown,
}
use monitor_agent.Agent.Heartbeat.Extra.{collected_json, beat-extra}
use monitor_agent.Agent.Metrics.{Tick, idle, run}
use monitor_agent.Agent.Metrics.Conserved.{flow, gathered, run-handed}
use monitor_agent.Agent.Metrics.Delivery.{IsSettled, run-IsSettled}
use monitor_agent.Agent.LogUpload.{Uploads}
use monitor_agent.Logger.{LogEntry}
use monitor_agent.Cache.Examples.{entry_size, two_files}
use monitor_agent.Agent.LogUpload.Busy.{length-run}

abbrev reading : Reading
reading = record {
  now = 1000 * second;
  after = 1001 * second;
  last_message = none;
  fingerprint = lit "f1";
  info = some (record { json = some (lit "data"); fingerprint = lit "f1" });
  fallback = none;
}

-- The first heartbeat, with a hash that is the text itself.
beat-extra_example : (beat (λ t. t) start reading).1 ≡ (
    if should_collect (due (record start { count = start.count + 1 }) reading)
    then collected_json reading
    else none)
beat-extra_example = beat-extra (λ t. t) start reading

first_beat : (beat (λ t. t) start reading).1 ≡ some (lit "data")
unfolding beat due collect attach cooled recent_message_activity_within text_eq lit
first_beat = refl

abbrev times : ℕ → ℕ
times n = 9 + n

-- an encoding that fails for 0
abbrev encode : ℕ → Option Text
encode zero = none
encode (suc n) = some (lit "m")

abbrev four_ticks : List (Tick ℕ)
four_ticks =
    record { collected = some 1; accepts = false; clock = times }
    ∷ record { collected = some 2; accepts = true; clock = times }
    ∷ record { collected = none; accepts = true; clock = times }
    ∷ record { collected = some 3; accepts = true; clock = times }
    ∷ []

run-handed_example :
    flow (run entry_size encode 3 four_ticks (idle entry_size encode 3 (some two_files)))
    ≡ flow (idle entry_size encode 3 (some two_files)) ++ gathered four_ticks
run-handed_example =
    run-handed entry_size encode 3 four_ticks (idle entry_size encode 3 (some two_files))

run-IsSettled_example :
    IsSettled entry_size encode 3
      (some two_files)
      (run entry_size encode 3 four_ticks (idle entry_size encode 3 (some two_files)))
run-IsSettled_example = run-IsSettled entry_size encode 3 (some two_files) four_ticks (omega arith)

abbrev waiting_entry : Uploads
waiting_entry = record {
  log = record {
    sequence = 1;
    entries =
        record {
          level = lit "INFO";
          source = lit "agent";
          message = lit "started";
          time = empty;
          sequence = 1;
        }
        ∷ [];
  };
  batches = [];
  cache = some two_files;
}

abbrev log_ticks : List (Bool × Text × (ℕ → ℕ))
log_ticks = (true, empty, times) ∷ (false, empty, times) ∷ (true, empty, times) ∷ []

abbrev encode_entry : LogEntry → Option Text
encode_entry e = some e.message

-- Three ticks, of which the second upload fails.
length-run_example :
    length
      (monitor_agent.Agent.LogUpload.run entry_size encode_entry
        (pos 100)
        log_ticks
        waiting_entry).batches
    ≡ length waiting_entry.batches + length log_ticks
length-run_example =
    length-run entry_size encode_entry (pos 100) log_ticks waiting_entry (omega arith)

-- A message half a minute ago.
abbrev messaged : Reading
messaged = record reading { last_message = some (970 * second) }

messaged-IsCollected : IsCollected messaged
messaged-IsCollected = record {
  data_of = record { json = some (lit "data"); fingerprint = lit "f1" };
  is_chosen = refl;
  text = lit "data";
  is_text = refl;
}

-- A minute later another message has come, and then a third.
abbrev soon : Reading
soon = record messaged {
  now = 1060 * second;
  after = 1061 * second;
  last_message = some (1050 * second);
}

abbrev late : Reading
late = record soon { now = 1200 * second; after = 1201 * second }

due-run_beats_example :
    ((due (counted start) messaged).message ≡ true
      → (due
          (counted (run_beats (λ t. t) (soon ∷ []) (beat (λ t. t) start messaged).0))
          late).message
        ≡ true
      → messaged.after + message_activity_cooldown ≤ late.now)
    × ((due (counted start) messaged).agents ≡ true
        → (due
            (counted (run_beats (λ t. t) (soon ∷ []) (beat (λ t. t) start messaged).0))
            late).agents
          ≡ true
        → messaged.after + agents_change_cooldown ≤ late.now)
due-run_beats_example =
    due-run_beats (λ t. t) start messaged (soon ∷ []) late messaged-IsCollected (omega arith, tt)
