-- ===== src/Command/Executor.antt =====
-- internal/command/executor.go: `Execute`, and the commands that are calls of the openclaw CLI. The
-- lines that only log are left out.
pub mod Final
use monitor_agent.Base.{
  ℕ, suc, ◌+◌, ◌-◌, ◌*◌, ◌%◌, ◌^◌, Bool, true, false, not, ◌&&◌, Option, none, some, ◌⊎◌, inl, inr,
  List, [], ◌∷◌, ◌++◌, Text, lit, text_eq, empty, is_empty, trim_space, split, words, contains,
  format_nat, join, leb, ltb, if◌then◌else◌, is_some,
}
use monitor_agent.Base.Int.{ℤ, pos, negsuc, ltb_ℤ}
use monitor_agent.Command.Json.{Json, Fields, str_param, bool_param, pos_param}
use monitor_agent.Command.Host.{Host, ◌>>=◌, pure}
use monitor_agent.Command.Cli.{
  Result, done, failed, second, seconds, error_text, times_second, format_int, cli_result,
  option_args, Exec, parse, run_cli, call, action_or,
}
use monitor_agent.Command.Service.{exec_launchctl, exec_restart, exec_status}
use monitor_agent.Command.ConfigFile.{exec_config}
use monitor_agent.Command.Message.{exec_message}

-- the number of lines that `execLogs` asks for
unfoldable pub log_lines : Option ℤ → ℤ
log_lines none = pos 50
log_lines (some n) = if ltb_ℤ (pos 500) n then pos 500 else n

module _ (h : Host) where
  open h use {
    State, launchctl, openclaw, config_path, read_file, write_file, mkdir_all, stamp, dir,
    unmarshal, marshal_indent,
  }

  pub exec_doctor : Exec h
  unfolding call
  exec_doctor = call h (lit "openclaw doctor") 60 (lit "doctor" ∷ [])

  pub exec_agents : Exec h
  unfolding call
  exec_agents =
      call h (lit "openclaw agents list") 15 (lit "agents" ∷ lit "list" ∷ lit "--json" ∷ [])

  pub exec_update : Fields → Exec h
  unfolding call action_or
  exec_update params s =
      let action = action_or h (lit "check") params in
      if text_eq action (lit "check")
      then call h (lit "openclaw update status") 30 (lit "update" ∷ lit "status" ∷ []) s
      else if text_eq action (lit "apply")
      then call h (lit "openclaw update") 300
          (lit "update" ∷ option_args (lit "--channel") (str_param (lit "channel") params)) s
      else (failed (lit "unknown update action: " ++ action ++ lit " (use check or apply)"), s)

  pub exec_logs : Fields → Exec h
  unfolding call log_lines
  exec_logs params = call h (lit "openclaw logs") 15 (
      lit "logs" ∷ (lit "--lines=" ++ format_int (log_lines (pos_param (lit "lines") params))) ∷ [])

  pub probe_result : Text → Text → Result
  probe_result gw ch =
      let parts =
        (if is_empty gw then [] else (lit "=== Gateway Probe ===\n" ++ gw) ∷ [])
        ++ (if is_empty ch then [] else (lit "=== Channels Probe ===\n" ++ ch) ∷ []) in
      if is_empty gw && is_empty ch
      then failed (lit "probe commands returned no output")
      else done (join parts (lit "\n\n"))

  pub exec_probe : Exec h
  unfolding probe_result run_cli
  exec_probe = do
    (gw, _) ← run_cli h (seconds 15) (lit "gateway" ∷ lit "probe" ∷ [])
    (ch, _) ← run_cli h (seconds 30) (lit "channels" ∷ lit "status" ∷ lit "--probe" ∷ [])
    pure (probe_result gw ch)

  pub exec_sessions : Fields → Exec h
  unfolding call action_or
  exec_sessions params s =
      let action = action_or h (lit "list") params in
      if text_eq action (lit "list")
      then call h (lit "openclaw sessions") 15 (lit "sessions" ∷ []) s
      else if text_eq action (lit "cleanup")
      then call h (lit "openclaw sessions cleanup") 30
          (lit "sessions"
            ∷ lit "cleanup"
            ∷ (if bool_param (lit "dry_run") params then lit "--dry-run" ∷ [] else []))
          s
      else (failed (lit "unknown sessions action: " ++ action ++ lit " (use list or cleanup)"), s)

  pub exec_security : Fields → Exec h
  unfolding call
  exec_security params = call h (lit "openclaw security audit") 60 (
      lit "security"
      ∷ lit "audit"
      ∷ (if bool_param (lit "deep") params then lit "--deep" ∷ [] else []))

  pub exec_gateway_cmd : Fields → Exec h
  unfolding call action_or
  exec_gateway_cmd params s =
      let action = action_or h (lit "status") params in
      if text_eq action (lit "status")
      then call h (lit "openclaw gateway status") 15 (lit "gateway" ∷ lit "status" ∷ []) s
      else if text_eq action (lit "health")
      then call h (lit "openclaw gateway health") 15 (lit "gateway" ∷ lit "health" ∷ []) s
      else if text_eq action (lit "restart")
      then call h (lit "openclaw gateway restart") 30 (lit "gateway" ∷ lit "restart" ∷ []) s
      else (
        failed
            (lit "unknown gateway action: " ++ action ++ lit " (use status, health, or restart)"),
        s,
      )

  -- the later cases of the switch of `Execute`
  pub execute_more : Text → Fields → Exec h
  execute_more command_type params =
      if text_eq command_type (lit "openclaw_update")
      then exec_update params
      else if text_eq command_type (lit "openclaw_logs")
      then exec_logs params
      else if text_eq command_type (lit "openclaw_probe")
      then exec_probe
      else if text_eq command_type (lit "openclaw_sessions")
      then exec_sessions params
      else if text_eq command_type (lit "openclaw_security")
      then exec_security params
      else if text_eq command_type (lit "openclaw_gateway")
      then exec_gateway_cmd params
      else if text_eq command_type (lit "openclaw_message")
      then exec_message h params
      else pure (failed (lit "unknown command type: " ++ command_type))

  -- `Execute`
  pub execute : Text → Fields → Exec h
  execute command_type params =
      if text_eq command_type (lit "openclaw_start")
      then exec_launchctl h (lit "start")
      else if text_eq command_type (lit "openclaw_stop")
      then exec_launchctl h (lit "stop")
      else if text_eq command_type (lit "openclaw_restart")
      then exec_restart h
      else if text_eq command_type (lit "openclaw_status")
      then exec_status h
      else if text_eq command_type (lit "openclaw_agents")
      then exec_agents
      else if text_eq command_type (lit "openclaw_config")
      then exec_config h params
      else if text_eq command_type (lit "openclaw_doctor")
      then exec_doctor
      else execute_more command_type params
