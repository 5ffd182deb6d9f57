-- ===== src/Command/Message/Failure.antt =====
-- When `openclaw_message` fails.
use monitor_agent.Base.{
  ◌≡◌, ◌↔◌, arith, true, false, Option, Text, lit, is_empty, trim_space, is_some, trim_space_idem,
  ap, ◌∙◌,
}
use monitor_agent.Command.Json.{Fields, str_param}
use monitor_agent.Command.Reply.{is_empty-extract_agent_reply}
use monitor_agent.Command.Host.{Host}
use monitor_agent.Command.Cli.{parse, run_cli}
use monitor_agent.Command.Message.{message_result, exec_message, message_args, message_timeout}

module _ (h : Host) where
  open h use {State, openclaw}

  -- Of an output that was trimmed.
  message_result-failed :
      (out : Text) (err : Option Text)
      → trim_space out ≡ out
      → ((message_result h (out, err)).status ≡ 3) ↔ ((is_some err ≡ true) × (is_empty out ≡ true))
  unfolding message_result
  message_result-failed out err t =
      let e = is_empty-extract_agent_reply (parse h) out ∙ ap is_empty t in ground arith

  -- A message that is not blank fails just where the CLI returns an error and its output is blank.
  pub exec_message_failed :
      (params : Fields) (s : State)
      → is_empty (trim_space (str_param (lit "message") params)) ≡ false
      → ((exec_message h params s).0.status ≡ 3) ↔ (
          (is_some (openclaw (message_timeout h params) (message_args h params) s).0.1 ≡ true)
          × (is_empty
                (trim_space (openclaw (message_timeout h params) (message_args h params) s).0.0)
              ≡ true))
  unfolding exec_message run_cli
  exec_message_failed params s filled =
      let r = (openclaw (message_timeout h params) (message_args h params) s).0 in
      let p = message_result-failed (trim_space r.0) r.1 (trim_space_idem r.0) in rw filled p
