-- ===== src/Command/Cli.antt =====
-- internal/command/executor.go: the results, and what the commands share.
use monitor_agent.Base.{
  ℕ, suc, ◌-◌, ◌*◌, ◌%◌, ◌^◌, Option, none, some, inl, inr, List, [], ◌∷◌, ◌++◌, Text, lit, empty,
  is_empty, trim_space, format_nat, ltb, if◌then◌else◌,
}
use monitor_agent.Base.Int.{ℤ, pos, negsuc}
use monitor_agent.Command.Json.{Json, Fields, str_param}
use monitor_agent.Command.Host.{Host, ◌>>=◌, pure}

-- `Result`: status 2 is done, status 3 is failed.
pub record Result : Type 0 where
  pub status : ℕ
  pub output : Text
  pub error_message : Text

abbrev pub done : Text → Result
done out = record { status = 2; output = out; error_message = empty }

abbrev pub failed : Text → Result
failed msg = record { status = 3; output = empty; error_message = msg }

abbrev pub second : ℕ
second = 1_000_000_000

abbrev pub seconds : ℕ → ℤ
seconds n = pos (n * second)

-- the text of an error, where there is one
abbrev pub error_text : Option Text → Text
error_text none = empty
error_text (some e) = e

-- the integer that an int64 holds after an overflow
unfoldable pub wrap64 : ℤ → ℤ
wrap64 z =
    let m : ℕ = elim z [ pos n ↦ n % 2 ^ 64 | negsuc n ↦ 2 ^ 64 - 1 - n % 2 ^ 64 ] in
    if ltb m (2 ^ 63) then pos m else negsuc (2 ^ 64 - 1 - m)

-- `time.Duration(n) * time.Second`
unfoldable pub times_second : ℤ → ℤ
unfolding wrap64
times_second (pos n) = wrap64 (pos (n * second))
times_second (negsuc n) = wrap64 (negsuc (suc n * second - 1))

-- fmt.Sprintf("%d")
unfoldable pub format_int : ℤ → Text
format_int (pos n) = format_nat n
format_int (negsuc n) = lit "-" ++ format_nat (suc n)

-- How most commands end: `if err != nil && out == ""`.
unfoldable pub cli_result : Text → Text × Option Text → Result
cli_result label (out, none) = done out
cli_result label (out, some err) =
    if is_empty out then failed (label ++ lit " failed: " ++ err) else done out

-- `--flag value`, if the value is not ""
abbrev pub option_args : Text → Text → List Text
option_args flag value = if is_empty value then [] else flag ∷ value ∷ []

module _ (h : Host) where
  open h use {
    State, launchctl, openclaw, config_path, read_file, write_file, mkdir_all, stamp, dir,
    unmarshal, marshal_indent,
  }

  abbrev pub Exec : Type 0
  Exec = State → Result × State

  abbrev pub parse : Text → Option Json
  parse s = elim (unmarshal s) [ inl e ↦ none | inr v ↦ some v ]

  -- `runCLI`; the timeout is in nanoseconds.
  unfoldable pub run_cli : ℤ → List Text → State → (Text × Option Text) × State
  run_cli timeout args = do (out, err) ← openclaw timeout args; pure (trim_space out, err)

  -- a command that is one call of the CLI
  unfoldable pub call : Text → ℕ → List Text → Exec
  unfolding run_cli cli_result
  call label timeout args = do r ← run_cli (seconds timeout) args; pure (cli_result label r)

  -- the value of "action", or the default
  unfoldable pub action_or : Text → Fields → Text
  action_or default params =
      let action = str_param (lit "action") params in if is_empty action then default else action
