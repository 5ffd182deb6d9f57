-- ===== src/Agent/Heartbeat.antt =====
-- `sendHeartbeat` of cmd/agent/main.go: when the heartbeat carries the OpenClaw data. Times are
-- nanoseconds of the monotonic clock, `none` is the zero time.
pub mod Extra
pub mod Recorded
pub mod Cooldown
use monitor_agent.Base.{
  ℕ, ◌+◌, ◌-◌, ◌*◌, ◌%◌, Bool, true, false, not, ◌&&◌, ◌||◌, Option, none, some, Text, text_eq,
  empty, is_empty, leb, ◌==◌, if◌then◌else◌,
}
use monitor_agent.State.{recent_message_activity_within}

-- the variables that the closure keeps
pub record Beats : Type 0 where
  pub count : ℕ
  pub last_extra_hash : Text
  pub last_agents_fingerprint : Text
  pub last_agents_triggered_at : Option ℕ
  pub last_message_triggered_at : Option ℕ

abbrev pub start : Beats
start = record {
  count = 0;
  last_extra_hash = empty;
  last_agents_fingerprint = empty;
  last_agents_triggered_at = none;
  last_message_triggered_at = none;
}

-- What a collector gives: its JSON, if `json.Marshal` accepts it, and the fingerprint of its agents.
pub record Collected : Type 0 where
  pub json : Option Text
  pub fingerprint : Text

-- What one heartbeat reads: the clock at the tests and after the collection, the last message, the
-- current fingerprint, what `CollectOpenClawInfo` and `CollectAgentsOnlyInfo` return.
pub record Reading : Type 0 where
  pub now : ℕ
  pub after : ℕ
  pub last_message : Option ℕ
  pub fingerprint : Text
  pub info : Option Collected
  pub fallback : Option Collected

abbrev pub second : ℕ
second = 1_000_000_000

abbrev pub openclaw_interval : ℕ
openclaw_interval = 5

abbrev pub recent_message_window : ℕ
recent_message_window = 600 * second

abbrev pub agents_change_cooldown : ℕ
agents_change_cooldown = 30 * second

abbrev pub message_activity_cooldown : ℕ
message_activity_cooldown = 120 * second

-- `t.IsZero() || time.Since(t) >= cooldown`
unfoldable pub cooled : ℕ → ℕ → Option ℕ → Bool
cooled cooldown now none = true
cooled cooldown now (some t) = leb cooldown (now - t)

-- Why data is collected. The count is the one after the increment.
pub record Due : Type 0 where
  pub interval : Bool
  pub agents : Bool
  pub message : Bool

unfoldable pub due : Beats → Reading → Due
unfolding cooled recent_message_activity_within
due b r = record {
  interval = b.count % openclaw_interval == 1;
  agents =
      not (is_empty r.fingerprint)
      && not (text_eq r.fingerprint b.last_agents_fingerprint)
      && cooled agents_change_cooldown r.now b.last_agents_triggered_at;
  message =
      recent_message_activity_within recent_message_window r.now r.last_message
      && cooled message_activity_cooldown r.now b.last_message_triggered_at;
}

abbrev pub should_collect : Due → Bool
should_collect d = d.interval || d.agents || d.message

module _ (sha1 : Text → Text) where
  -- what is done with collected data
  unfoldable pub attach : Beats → Reading → Due → Collected → Beats × Option Text
  attach b r d c = elim c.json [
    | none ↦ (b, none)
    | some json ↦
        let hash = sha1 json in
        let send = d.interval || d.agents || d.message || not (text_eq hash b.last_extra_hash) in
        (
          record {
            count = b.count;
            last_extra_hash = if send then hash else b.last_extra_hash;
            last_agents_fingerprint =
                if not (is_empty c.fingerprint)
                then c.fingerprint
                else if not (is_empty r.fingerprint)
                then r.fingerprint
                else b.last_agents_fingerprint;
            last_agents_triggered_at =
                if d.agents then some r.after else b.last_agents_triggered_at;
            last_message_triggered_at =
                if d.message then some r.after else b.last_message_triggered_at;
          },
          if send then some json else none,
        )
  ]

  unfoldable pub collect : Beats → Reading → Due → Beats × Option Text
  unfolding attach
  collect b r d = elim r.info [
    | some c ↦ attach b r d c
    | none ↦ elim r.fallback [ none ↦ (b, none) | some c ↦ attach b r d c ]
  ]

  -- The part of `sendHeartbeat` before the upload: the state, and `extraData`.
  unfoldable pub beat : Beats → Reading → Beats × Option Text
  beat b r =
      let b' = record b { count = b.count + 1 } in
      let d = due b' r in if should_collect d then collect b' r d else (b', none)
