-- ===== src/Collector/Metrics.antt =====
-- internal/collector/metrics.go: one reading of the metrics. What gopsutil answers is a record;
-- `none` is an error. `F` stands for float64.
use monitor_agent.Base.{ℕ, Option, none, some, List, [], ◌∷◌, Text, lit, text_eq, if◌then◌else◌}
use monitor_agent.Base.Int.{ℤ}
use monitor_agent.Collector.Words.{signed}

-- `disk.UsageStat`, as far as it is read
pub record Usage (F : Type 0) : Type 0 where
  pub used_percent : F
  pub used : ℕ
  pub free : ℕ

pub record Memory (F : Type 0) : Type 0 where
  pub used_percent : F
  pub used : ℕ
  pub available : ℕ

pub record Load (F : Type 0) : Type 0 where
  pub load1 : F
  pub load5 : F
  pub load15 : F

pub record Readings (F : Type 0) : Type 0 where
  pub now : ℕ
  pub percent : Option (List F)
  pub memory : Option (Memory F)
  -- the mount points, and `disk.Usage` of each
  pub partitions : Option (List (Text × Option (Usage F)))
  -- the bytes received and sent, for each counter
  pub counters : Option (List (ℕ × ℕ))
  pub load : Option (Load F)
  -- the number of the processes
  pub processes : Option ℕ

pub record MetricItem (F : Type 0) : Type 0 where
  pub metric_time : ℕ
  pub cpu_usage : F
  pub memory_usage : F
  pub memory_used : ℤ
  pub memory_available : ℤ
  pub disk_usage : F
  pub disk_used : ℤ
  pub disk_available : ℤ
  pub network_in : ℤ
  pub network_out : ℤ
  pub load_average_1 : F
  pub load_average_5 : F
  pub load_average_15 : F
  pub process_count : ℕ

-- the first element, if the call succeeded and there is one
abbrev pub first_of : {A : Type 0} → Option (List A) → Option A
first_of (some (x ∷ xs)) = some x
first_of _ = none

module _ {F : Type 0} (zero_float : F) where
  -- the loop over the partitions: `rootUsage` or else `firstUsage`
  unfoldable pub choose_usage : Option (Usage F) → List (Text × Option (Usage F)) → Option (Usage F)
  choose_usage first [] = first
  choose_usage first (p ∷ ps) = elim p.1 [
    | none ↦ choose_usage first ps
    | some u ↦
        if text_eq p.0 (lit "/")
        then some u
        else elim first [ none ↦ choose_usage (some u) ps | some f ↦ choose_usage (some f) ps ]
  ]

  abbrev pub no_usage : Usage F
  no_usage = record { used_percent = zero_float; used = 0; free = 0 }

  abbrev pub no_memory : Memory F
  no_memory = record { used_percent = zero_float; used = 0; available = 0 }

  abbrev pub no_load : Load F
  no_load = record { load1 = zero_float; load5 = zero_float; load15 = zero_float }

  -- `Collect`
  unfoldable pub collect : Readings F → MetricItem F
  unfolding choose_usage
  collect r =
      let usage : Usage F = elim r.partitions [
        | none ↦ no_usage
        | some ps ↦ elim (choose_usage none ps) [ none ↦ no_usage | some u ↦ u ]
      ] in
      let memory : Memory F = elim r.memory [ none ↦ no_memory | some m ↦ m ] in
      let load : Load F = elim r.load [ none ↦ no_load | some l ↦ l ] in
      let bytes : ℕ × ℕ = elim (first_of r.counters) [ none ↦ (0, 0) | some b ↦ b ] in
      record {
        metric_time = r.now;
        cpu_usage = elim (first_of r.percent) [ none ↦ zero_float | some p ↦ p ];
        memory_usage = memory.used_percent;
        memory_used = signed memory.used;
        memory_available = signed memory.available;
        disk_usage = usage.used_percent;
        disk_used = signed usage.used;
        disk_available = signed usage.free;
        network_in = signed bytes.0;
        network_out = signed bytes.1;
        load_average_1 = load.load1;
        load_average_5 = load.load5;
        load_average_15 = load.load15;
        process_count = elim r.processes [ none ↦ 0 | some n ↦ n ];
      }
