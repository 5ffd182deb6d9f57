-- ===== src/Command/Executor/Final.antt =====
-- Every command ends as done or as failed.
use monitor_agent.Base.{◌≡◌, ◌⊎◌, inl, refl, arith, Option, none, some, Text, ℕ, List, lit}
use monitor_agent.Command.Json.{Json, Fields}
use monitor_agent.Command.Host.{Host}
use monitor_agent.Command.Cli.{Result, cli_result, call}
use monitor_agent.Command.Service.{exec_launchctl, exec_restart, exec_status}
use monitor_agent.Command.ConfigFile.{
  config_read, config_validate, config_replace, config_write, config_action, exec_config,
}
use monitor_agent.Command.Executor.{
  exec_doctor, exec_agents, exec_update, exec_logs, exec_probe, exec_sessions, exec_security,
  exec_gateway_cmd, execute, execute_more,
}
use monitor_agent.Command.Message.{message_result, exec_message}

-- Status 2 or status 3: not the 1 of a command that is running.
abbrev pub IsFinal : Result → Type 0
IsFinal r = (r.status ≡ 2) ⊎ (r.status ≡ 3)

cli_result-IsFinal : (label : Text) (r : Text × Option Text) → IsFinal (cli_result label r)
unfolding cli_result
cli_result-IsFinal label (out, none) = inl refl
cli_result-IsFinal label (out, some e) = ground arith

module _ (h : Host) where
  open h use {State}

  call-IsFinal :
      (label : Text) (t : ℕ) (args : List Text) (s : State) → IsFinal (call h label t args s).0
  unfolding call
  call-IsFinal label t args s = cli_result-IsFinal label _

  doctor-IsFinal : (s : State) → IsFinal (exec_doctor h s).0
  unfolding exec_doctor
  doctor-IsFinal s = cli_result-IsFinal _ _

  agents-IsFinal : (s : State) → IsFinal (exec_agents h s).0
  unfolding exec_agents
  agents-IsFinal s = cli_result-IsFinal _ _

  logs-IsFinal : (params : Fields) (s : State) → IsFinal (exec_logs h params s).0
  unfolding exec_logs
  logs-IsFinal params s = cli_result-IsFinal _ _

  security-IsFinal : (params : Fields) (s : State) → IsFinal (exec_security h params s).0
  unfolding exec_security
  security-IsFinal params s = cli_result-IsFinal _ _

  launchctl-IsFinal : (action : Text) (s : State) → IsFinal (exec_launchctl h action s).0
  unfolding exec_launchctl
  launchctl-IsFinal action s = ground arith

  restart-IsFinal : (s : State) → IsFinal (exec_restart h s).0
  unfolding exec_restart
  restart-IsFinal s = ground arith

  status-IsFinal : (s : State) → IsFinal (exec_status h s).0
  unfolding exec_status
  status-IsFinal s = ground arith

  read-IsFinal : (path : Text) (s : State) → IsFinal (config_read h path s).0
  unfolding config_read
  read-IsFinal path s = ground arith

  validate-IsFinal : (path : Text) (s : State) → IsFinal (config_validate h path s).0
  unfolding config_validate
  validate-IsFinal path s = ground arith

  replace-IsFinal : (path : Text) (v : Json) (s : State) → IsFinal (config_replace h path v s).0
  unfolding config_replace
  replace-IsFinal path v s = ground arith

  write-IsFinal : (path content : Text) (s : State) → IsFinal (config_write h path content s).0
  unfolding config_write
  write-IsFinal path content s = grind (arith, replace-IsFinal)

  config-IsFinal : (params : Fields) (s : State) → IsFinal (exec_config h params s).0
  unfolding exec_config config_action
  config-IsFinal params s = grind (arith, read-IsFinal, write-IsFinal, validate-IsFinal)

  update-IsFinal : (params : Fields) (s : State) → IsFinal (exec_update h params s).0
  unfolding exec_update
  update-IsFinal params s = grind (arith, call-IsFinal)

  probe-IsFinal : (s : State) → IsFinal (exec_probe h s).0
  unfolding exec_probe
  probe-IsFinal s = ground arith

  sessions-IsFinal : (params : Fields) (s : State) → IsFinal (exec_sessions h params s).0
  unfolding exec_sessions
  sessions-IsFinal params s = grind (arith, call-IsFinal)

  gateway-IsFinal : (params : Fields) (s : State) → IsFinal (exec_gateway_cmd h params s).0
  unfolding exec_gateway_cmd
  gateway-IsFinal params s = grind (arith, call-IsFinal)

  result-IsFinal : (r : Text × Option Text) → IsFinal (message_result h r)
  unfolding message_result
  result-IsFinal r = ground arith

  message-IsFinal : (params : Fields) (s : State) → IsFinal (exec_message h params s).0
  unfolding exec_message
  message-IsFinal params s = grind (arith, result-IsFinal)

  more-IsFinal :
      (command_type : Text) (params : Fields) (s : State)
      → IsFinal (execute_more h command_type params s).0
  unfolding execute_more
  more-IsFinal command_type params s = ground (
    arith,
    update-IsFinal params s,
    logs-IsFinal params s,
    probe-IsFinal s,
    sessions-IsFinal params s,
    security-IsFinal params s,
    gateway-IsFinal params s,
    message-IsFinal params s,
  )

  -- Whatever the command, its parameters and the machine, the result has status 2 or status 3.
  pub execute-IsFinal :
      (command_type : Text) (params : Fields) (s : State)
      → IsFinal (execute h command_type params s).0
  unfolding execute
  execute-IsFinal command_type params s = ground (
    arith,
    launchctl-IsFinal (lit "start") s,
    launchctl-IsFinal (lit "stop") s,
    restart-IsFinal s,
    status-IsFinal s,
    agents-IsFinal s,
    config-IsFinal params s,
    doctor-IsFinal s,
    more-IsFinal command_type params s,
  )
