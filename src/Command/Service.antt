-- ===== src/Command/Service.antt =====
-- internal/command/executor.go: the commands that call launchctl. `time.Sleep` is left out.
pub mod Listing
mod Examples
use monitor_agent.Base.{
  Option, none, some, List, [], ◌∷◌, ◌++◌, Text, lit, text_eq, empty, is_empty, trim_space, split,
  words, contains, if◌then◌else◌,
}
use monitor_agent.Command.Host.{Host, ◌>>=◌, pure}
use monitor_agent.Command.Cli.{Result, done, failed, Exec}

abbrev service_name : Text
service_name = lit "ai.openclaw.gateway"

-- the answer of `execStatus` for the line that it found
service_status : List Text → Text
service_status (pid ∷ exit_code ∷ rest) =
    if text_eq pid (lit "-")
    then lit "not running (last exit: " ++ exit_code ++ lit ")"
    else lit "running (pid: " ++ pid ++ lit ")"
service_status _ = lit "unknown"

-- the line of `launchctl list` that names the service
first_match : List Text → Text
first_match [] = empty
first_match (l ∷ ls) =
    let rest = first_match ls in if contains l service_name then trim_space l else rest

module _ (h : Host) where
  open h use {
    State, launchctl, openclaw, config_path, read_file, write_file, mkdir_all, stamp, dir,
    unmarshal, marshal_indent,
  }

  pub launchctl_result : Text → Text × Option Text → Result
  launchctl_result action (out, none) =
      let output = trim_space out in
      done (
        if is_empty output
        then lit "launchctl " ++ action ++ lit " " ++ service_name ++ lit ": ok"
        else output)
  launchctl_result action (out, some err) = record {
    status = 3;
    output = trim_space out;
    error_message = err;
  }

  unfoldable pub exec_launchctl : Text → Exec h
  unfolding launchctl_result
  exec_launchctl action = do
    r ← launchctl (action ∷ service_name ∷ [])
    pure (launchctl_result action r)

  pub restart_result : Text → Text × Option Text → Result
  restart_result stop_out (start_out, err) =
      let output = lit "stop: " ++ trim_space stop_out ++ lit "\nstart: " ++ trim_space start_out in
      elim err [
        | none ↦ done output
        | some e ↦ record {
          status = 3;
          output = output;
          error_message = lit "restart failed on start: " ++ e;
        }
      ]

  unfoldable pub exec_restart : Exec h
  unfolding restart_result
  exec_restart = do
    (stop_out, _) ← launchctl (lit "stop" ∷ service_name ∷ [])
    r ← launchctl (lit "start" ∷ service_name ∷ [])
    pure (restart_result stop_out r)

  pub status_result : Text × Option Text → Result
  unfolding first_match service_status
  status_result (out, some err) = failed (lit "launchctl list failed: " ++ err)
  status_result (out, none) =
      let matched = first_match (split 10 out) in
      done (
        service_name
        ++ lit ": "
        ++ (if is_empty matched then lit "not loaded" else service_status (words matched)))

  unfoldable pub exec_status : Exec h
  unfolding status_result
  exec_status = do r ← launchctl (lit "list" ∷ []); pure (status_result r)
