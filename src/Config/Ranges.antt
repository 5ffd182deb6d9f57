-- ===== src/Config/Ranges.antt =====
-- The values that `Load` can return.
use monitor_agent.Base.{
  ℕ, ◌≤◌, ◌≡◌, ◌≢◌, refl, arith, Bool, true, false, Option, none, some, inl, inr, Text, lit,
  is_empty,
}
use monitor_agent.Base.Int.{ℤ, pos, ◌≤ℤ◌}
use monitor_agent.Config.{
  Config, Process, apply_defaults, validate, load, invalid, positive_or, at_most, text_or,
  default_server, default_transport, default_intervals, default_logs, default_cache, default_retry,
}

abbrev pub Within : ℤ → ℕ → Type 0
Within v limit = (pos 1 ≤ℤ v) × (v ≤ℤ pos limit)

-- Every interval, size and count is positive, the batch sizes are within their bounds, and the
-- server and the transport are named.
pub record InRange (c : Config) : Type 0 where
  pub url : is_empty c.server.url ≡ false
  pub timeout : pos 1 ≤ℤ c.server.timeout
  pub transport : is_empty c.transport.type ≡ false
  pub keep_alive : pos 1 ≤ℤ c.transport.mqtt.keep_alive
  pub reconnect : pos 1 ≤ℤ c.transport.mqtt.reconnect_interval
  pub heartbeat : pos 1 ≤ℤ c.intervals.heartbeat
  pub metrics : pos 1 ≤ℤ c.intervals.metrics
  pub skills : pos 1 ≤ℤ c.intervals.skills
  pub log_upload : pos 1 ≤ℤ c.intervals.log_upload
  pub metrics_batch : Within c.metrics_batch_size 100
  pub logs_batch : Within c.logs.batch_size 1000
  pub max_size : pos 1 ≤ℤ c.logs.max_size
  pub max_backups : pos 1 ≤ℤ c.logs.max_backups
  pub max_size_mb : pos 1 ≤ℤ c.cache.max_size_mb
  pub max_attempts : pos 1 ≤ℤ c.retry.max_attempts
  pub initial_interval : pos 1 ≤ℤ c.retry.initial_interval
  pub max_interval : pos 1 ≤ℤ c.retry.max_interval

positive_or-pos : (d : ℕ) (v : ℤ) → 1 ≤ d → pos 1 ≤ℤ positive_or d v
unfolding positive_or
positive_or-pos d v h = ground arith

at_most-Within : (limit : ℕ) (v : ℤ) → 1 ≤ limit → pos 1 ≤ℤ v → Within (at_most limit v) limit
unfolding at_most
at_most-Within limit v h k = ground arith

text_or-filled : (d s : Text) → is_empty d ≡ false → is_empty (text_or d s) ≡ false
unfolding text_or
text_or-filled d s h = ground arith

apply_defaults-InRange : (p : Process) (c : Config) → InRange (apply_defaults p c)
unfolding apply_defaults default_server default_transport default_intervals default_logs
    default_cache default_retry
apply_defaults-InRange p c = record {
  url = text_or-filled _ _ (unfold lit in refl);
  timeout = positive_or-pos 30 _ (omega arith);
  transport = text_or-filled _ _ (unfold lit in refl);
  keep_alive = positive_or-pos 60 _ (omega arith);
  reconnect = positive_or-pos 5 _ (omega arith);
  heartbeat = positive_or-pos 60 _ (omega arith);
  metrics = positive_or-pos 30 _ (omega arith);
  skills = positive_or-pos 300 _ (omega arith);
  log_upload = positive_or-pos 60 _ (omega arith);
  metrics_batch = at_most-Within 100 _ (omega arith) (positive_or-pos 10 _ (omega arith));
  logs_batch = at_most-Within 1000 _ (omega arith) (positive_or-pos 100 _ (omega arith));
  max_size = positive_or-pos 100 _ (omega arith);
  max_backups = positive_or-pos 3 _ (omega arith);
  max_size_mb = positive_or-pos 50 _ (omega arith);
  max_attempts = positive_or-pos 5 _ (omega arith);
  initial_interval = positive_or-pos 1 _ (omega arith);
  max_interval = positive_or-pos 30 _ (omega arith);
}

-- `Load` never ends in the error of `Validate`, and every configuration that it returns is in range.
pub load-InRange :
    (p : Process) (readable : Bool) (decoded : Option Config)
    → (load p readable decoded ≢ inl invalid)
      × ((c : Config) → load p readable decoded ≡ inr c → InRange c)
unfolding load validate
load-InRange p false decoded = (λ e. cc, λ c e. absurd (ground arith))
load-InRange p true none = (λ e. cc, λ c e. absurd (ground arith))
load-InRange p true (some d) =
    let r = apply_defaults-InRange p d in
    rw r.url (λ e. cc, λ c e. let q : apply_defaults p d ≡ c = ground arith in rw q at r)
