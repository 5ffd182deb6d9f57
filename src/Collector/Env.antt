-- ===== src/Collector/Env.antt =====
-- internal/collector/openclaw.go: what the collector uses of the machine, and `runQuickCLI`. Within one
-- collection a command of the openclaw CLI answers alike.
use monitor_agent.Base.{ℕ, Bool, Option, List, ◌∷◌, ◌++◌, Text, is_empty, trim_space, if◌then◌else◌}
use monitor_agent.Collector.Words.{strip_ansi}
use monitor_agent.Collector.Agents.{AgentItem}
use monitor_agent.Collector.Sessions.{SessionItem}

pub record Output : Type 0 where
  pub stdout : Text
  pub stderr : Text
  pub failed : Bool

pub record Env : Type 0 where
  -- `unicode.ToLower` of a rune beyond ASCII
  pub fold : ℕ → ℕ
  -- `fmt.Sprintf("%.1f", float64(v) / d)`
  pub one_decimal : ℕ → ℕ → Text
  -- a run of `openclawcli.CommandContext`
  pub run : List Text → Output
  -- `json.Unmarshal` of a list of agents, and of the sessions
  pub parse_agents : Text → Option (List AgentItem)
  pub parse_sessions : Text → Option (List SessionItem)

-- both streams, with a line between them
abbrev pub both_streams : Output → Text
both_streams o =
    if is_empty o.stderr
    then o.stdout
    else if is_empty o.stdout
    then o.stderr
    else o.stdout ++ (10 ∷ o.stderr)

-- `runQuickCLI`
unfoldable pub run_quick_cli : Env → List Text → Text
run_quick_cli env args = strip_ansi (trim_space (both_streams (env.run args)))
