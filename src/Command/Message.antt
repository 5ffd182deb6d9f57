-- ===== src/Command/Message.antt =====
-- internal/command/executor.go: `execMessage`.
pub mod Failure
use monitor_agent.Base.{
  ℕ, suc, ◌+◌, ◌-◌, ◌*◌, ◌%◌, ◌^◌, Bool, true, false, not, ◌&&◌, Option, none, some, ◌⊎◌, inl, inr,
  List, [], ◌∷◌, ◌++◌, Text, lit, text_eq, empty, is_empty, trim_space, split, words, contains,
  format_nat, join, leb, ltb, if◌then◌else◌, is_some,
}
use monitor_agent.Base.Int.{ℤ, pos, negsuc, ltb_ℤ}
use monitor_agent.Command.Json.{Json, Fields, str_param, bool_param, pos_param}
use monitor_agent.Command.Host.{Host, ◌>>=◌, pure}
use monitor_agent.Command.Cli.{
  Result, done, failed, second, seconds, error_text, times_second, format_int, cli_result,
  option_args, Exec, parse, run_cli, call, action_or,
}
use monitor_agent.Command.Reply.{extract_agent_reply}

module _ (h : Host) where
  open h use {
    State, launchctl, openclaw, config_path, read_file, write_file, mkdir_all, stamp, dir,
    unmarshal, marshal_indent,
  }

  pub message_args : Fields → List Text
  message_args params =
      let flag = λ (name key : Text). option_args name (str_param key params) in
      lit "agent"
      ∷ lit "--message"
      ∷ str_param (lit "message") params
      ∷ lit "--json"
      ∷ (flag (lit "--agent") (lit "agent_id")
          ++ (flag (lit "--session-id") (lit "session_id")
              ++ (flag (lit "--channel") (lit "channel")
                  ++ (flag (lit "--to") (lit "to")
                      ++ ((if bool_param (lit "deliver") params then lit "--deliver" ∷ [] else [])
                          ++ flag (lit "--thinking") (lit "thinking"))))))

  pub message_timeout : Fields → ℤ
  unfolding times_second
  message_timeout params = elim (pos_param (lit "timeout") params) [
    | none ↦ seconds 60
    | some n ↦ times_second n
  ]

  unfoldable pub message_result : Text × Option Text → Result
  message_result (out, err) =
      let reply = extract_agent_reply (parse h) out in
      if is_some err && is_empty out
      then failed (lit "openclaw agent failed: " ++ error_text err)
      else if not (is_empty reply)
      then done reply
      else if is_some err
      then record { status = 3; output = reply; error_message = error_text err }
      else done out

  unfoldable pub exec_message : Fields → Exec h
  unfolding message_args message_timeout message_result run_cli
  exec_message params s =
      if is_empty (trim_space (str_param (lit "message") params))
      then (failed (lit "message is required"), s)
      else (do
        r ← run_cli h (message_timeout params) (message_args params)
        pure (message_result r))
          s
