-- ===== src/State.antt =====
-- internal/openclawstate/state.go: when a message was last handled. `none` is the zero time; times
-- are nanoseconds of the monotonic clock.
use monitor_agent.Base.{ℕ, ◌-◌, Bool, false, Option, none, some, leb}

unfoldable pub mark_message_activity : ℕ → Option ℕ → Option ℕ
mark_message_activity now last = some now

unfoldable pub recent_message_activity_within : ℕ → ℕ → Option ℕ → Bool
recent_message_activity_within window now none = false
recent_message_activity_within window now (some last) = leb (now - last) window
