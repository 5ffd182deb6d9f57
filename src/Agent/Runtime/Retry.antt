-- ===== src/Agent/Runtime/Retry.antt =====
-- The retries that the client makes of a configuration.
use monitor_agent.Base.{ℕ, ◌*◌, ◌≡◌, arith, Bool, Option, inr}
use monitor_agent.Base.Int.{ℤ, pos, negsuc, pos_part, ◌≤ℤ◌}
use monitor_agent.Config.{Config, Process, load}
use monitor_agent.Config.Ranges.{load-InRange}
use monitor_agent.Client.{second, attempts_of, interval_of, max_interval_of}
use monitor_agent.Command.Cli.{wrap64, times_second}
use monitor_agent.Agent.Runtime.{retry_config}

-- the greatest number of seconds that a `time.Duration` holds
abbrev pub max_seconds : ℕ
max_seconds = 9_223_372_036

times_second-pos :
    (v : ℤ) → pos 1 ≤ℤ v → v ≤ℤ pos max_seconds → times_second v ≡ pos (pos_part v * second)
unfolding times_second wrap64
times_second-pos (negsuc n) h k = absurd (omega (arith, h))
times_second-pos (pos n) h k = ground (arith, k)

-- Where the intervals that `Load` returns are within the seconds of a `time.Duration`, the client made
-- of them tries as often as configured, and its intervals are the configured seconds: none of its own
-- defaults applies, and nothing wraps.
pub load-Retry :
    (p : Process) (readable : Bool) (decoded : Option Config) (cfg : Config)
    → load p readable decoded ≡ inr cfg
    → cfg.retry.initial_interval ≤ℤ pos max_seconds
    → cfg.retry.max_interval ≤ℤ pos max_seconds
    → (pos (attempts_of (retry_config cfg)) ≡ cfg.retry.max_attempts)
      × (interval_of (retry_config cfg) ≡ pos_part cfg.retry.initial_interval * second)
      × (max_interval_of (retry_config cfg) ≡ pos_part cfg.retry.max_interval * second)
unfolding attempts_of interval_of max_interval_of retry_config
load-Retry p readable decoded cfg l h k =
    let r = (load-InRange p readable decoded).1 cfg l in
    let a = r.max_attempts in
    let i = r.initial_interval in
    let m = r.max_interval in
    (
      ground (arith, a),
      rw (times_second-pos cfg.retry.initial_interval i h) (ground (arith, i)),
      rw (times_second-pos cfg.retry.max_interval m k) (ground (arith, m)),
    )
