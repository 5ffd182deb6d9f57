-- ===== src/Command/ConfigFile.antt =====
-- internal/command/executor.go: `execConfig`.
pub mod Write
use monitor_agent.Base.{
  ℕ, suc, ◌+◌, ◌-◌, ◌*◌, ◌%◌, ◌^◌, Bool, true, false, not, ◌&&◌, Option, none, some, ◌⊎◌, inl, inr,
  List, [], ◌∷◌, ◌++◌, Text, lit, text_eq, empty, is_empty, trim_space, split, words, contains,
  format_nat, join, leb, ltb, if◌then◌else◌, is_some,
}
use monitor_agent.Base.Int.{ℤ, pos, negsuc, ltb_ℤ}
use monitor_agent.Command.Json.{Json, Fields, str_param, bool_param, pos_param}
use monitor_agent.Command.Host.{Host, ◌>>=◌, pure}
use monitor_agent.Command.Cli.{
  Result, done, failed, second, seconds, error_text, times_second, format_int, cli_result,
  option_args, Exec, parse, run_cli, call, action_or,
}

module _ (h : Host) where
  open h use {
    State, launchctl, openclaw, config_path, read_file, write_file, mkdir_all, stamp, dir,
    unmarshal, marshal_indent,
  }

  unfoldable pub config_read : Text → Exec h
  config_read path s =
      let (r, s') = read_file path s in
      (
        elim r [
          | inl err ↦ failed (lit "read config failed: " ++ err)
          | inr bytes ↦ elim (unmarshal bytes) [
            | inl err ↦ record {
              status = 3;
              output = bytes;
              error_message = lit "invalid json: " ++ err;
            }
            | inr v ↦ done bytes
          ]
        ],
        s',
      )

  unfoldable pub config_validate : Text → Exec h
  config_validate path s =
      let (r, s') = read_file path s in
      (
        elim r [
          | inl err ↦ failed (lit "read config failed: " ++ err)
          | inr bytes ↦ elim (unmarshal bytes) [
            | inl err ↦ record {
              status = 3;
              output = bytes;
              error_message = lit "invalid json: " ++ err;
            }
            | inr v ↦ done (lit "config is valid json")
          ]
        ],
        s',
      )

  -- the copy of the old file, whose errors are dropped
  pub backup : Text → State → State
  backup path s =
      let (r, s1) = read_file path s in
      elim r [
        | inl err ↦ s1
        | inr bytes ↦
            let (now, s2) = stamp s1 in (write_file (path ++ lit ".bak." ++ now) bytes s2).1
      ]

  -- after the checks of the content
  unfoldable pub config_replace : Text → Json → Exec h
  unfolding backup
  config_replace path v s =
      let (made, s1) = mkdir_all (dir path) (backup path s) in
      elim made [
        | some err ↦ (failed (lit "mkdir failed: " ++ err), s1)
        | none ↦
            let (written, s2) = write_file path (marshal_indent v) s1 in
            (
              elim written [
                | some err ↦ failed (lit "write config failed: " ++ err)
                | none ↦ done (lit "config updated successfully")
              ],
              s2,
            )
      ]

  unfoldable pub config_write : Text → Text → Exec h
  unfolding config_replace
  config_write path content s =
      if is_empty content
      then (failed (lit "content is required for write action"), s)
      else elim (unmarshal content) [
        | inl err ↦ (failed (lit "invalid json content: " ++ err), s)
        | inr v ↦ config_replace path v s
      ]

  unfoldable pub config_action : Text → Fields → Text → Exec h
  unfolding config_read config_write config_validate
  config_action path params action s =
      if text_eq action (lit "read")
      then config_read path s
      else if text_eq action (lit "write")
      then config_write path (str_param (lit "content") params) s
      else if text_eq action (lit "validate")
      then config_validate path s
      else (failed (lit "unknown config action: " ++ action), s)

  unfoldable pub exec_config : Fields → Exec h
  unfolding config_action action_or
  exec_config params s =
      let (path, s') = config_path s in
      if is_empty (trim_space path)
      then (failed (lit "unable to resolve OpenClaw config path"), s')
      else config_action path params (action_or h (lit "read") params) s'
