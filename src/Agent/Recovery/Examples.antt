-- ===== src/Agent/Recovery/Examples.antt =====
-- The recovery of a cache with one metric, refused.
use monitor_agent.Base.{ℕ, ◌+◌, ◌≡◌, arith, false, Option, some, Text, take}
use monitor_agent.Cache.{metrics}
use monitor_agent.Cache.Examples.{entry_size}
use monitor_agent.Cache.Clock.Examples.{one_metric, one_queue, one_metric-Holds, one_metric-IsReady}
use monitor_agent.Cache.Refinement.{Queues, Holds}
use monitor_agent.Cache.Refinement.Runs.{QueueRun, run_ops}
use monitor_agent.Cache.Clock.Runs.{Timed}
use monitor_agent.Agent.Recovery.{recovery_limit, recover, decode_all}
use monitor_agent.Agent.Recovery.Sent.{tried}
use monitor_agent.Agent.Recovery.Runs.{puts, recovery_ops, recover-QueueRun}

abbrev as_text : Text → Option Text
as_text t = some t

abbrev later : ℕ → ℕ
later n = 1_700_000_000_000_000_001 + n

put_back-Timed :
    Timed entry_size 100 1_700_000_000_000_000_001
      (recovery_ops entry_size as_text metrics as_text later false one_queue)
unfolding puts decode_all
put_back-Timed = (omega arith, omega arith, omega arith, omega arith, tt)

recover-QueueRun_example :
    ((recover entry_size as_text metrics as_text later false one_metric).upload
      ≡ tried entry_size as_text metrics false
          (decode_all as_text (take recovery_limit (one_queue metrics))))
    × (q' : Queues) × QueueRun one_queue
        (run_ops entry_size
          (recovery_ops entry_size as_text metrics as_text later false one_queue)
          one_metric).0
        q'
    × Holds (recover entry_size as_text metrics as_text later false one_metric).cache q'
recover-QueueRun_example =
    recover-QueueRun entry_size as_text metrics as_text later false 1_700_000_000_000_000_001
      one_metric one_queue one_metric-Holds one_metric-IsReady put_back-Timed
