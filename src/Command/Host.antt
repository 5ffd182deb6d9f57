-- ===== src/Command/Host.antt =====
-- What the executor uses of the machine: child processes, the openclaw CLI, files and JSON. The
-- state is the world that these calls read and change.
use monitor_agent.Base.{Option, ◌⊎◌, List, Text}
use monitor_agent.Base.Int.{ℤ}
use monitor_agent.Command.Json.{Json}

pub record Host : Type 1 where
  pub State : Type 0
  -- `exec.Command("launchctl", …).CombinedOutput()`: the output, and the text of the error
  pub launchctl : List Text → State → (Text × Option Text) × State
  -- `openclawcli.CommandContext(ctx, args...).CombinedOutput()` under a timeout in nanoseconds
  pub openclaw : ℤ → List Text → State → (Text × Option Text) × State
  -- `openclawcli.ConfigPath`
  pub config_path : State → Text × State
  -- `os.ReadFile`: the text of the error, or the bytes
  pub read_file : Text → State → (Text ⊎ Text) × State
  pub write_file : Text → Text → State → Option Text × State
  pub mkdir_all : Text → State → Option Text × State
  -- `time.Now().Format("20060102-150405")`
  pub stamp : State → Text × State
  -- `filepath.Dir`
  pub dir : Text → Text
  -- `json.Unmarshal` into an `interface{}`: the text of the error, or the value
  pub unmarshal : Text → Text ⊎ Json
  -- `json.MarshalIndent`
  pub marshal_indent : Json → Text

infixl 5 ◌>>=◌
abbrev pub ◌>>=◌ : {S A B : Type 0} → (S → A × S) → (A → S → B × S) → S → B × S
◌>>=◌ m f s = let (a, s') = m s in f a s'

abbrev pub pure : {S A : Type 0} → A → S → A × S
pure a s = (a, s)
