-- ===== src/OpenclawCli/Config.antt =====
-- `ConfigPath`: where the configuration of OpenClaw is, asked for once.
use monitor_agent.Base.{
  Bool, true, false, not, Option, none, some, [], ◌∷◌, drop, length, Text, lit, empty, is_empty,
  trim_space, has_prefix, ◌==◌, if◌then◌else◌,
}
use monitor_agent.Collector.Words.{is_blank}
use monitor_agent.OpenclawCli.{Machine, command_context}

-- `\s*` before the rest of a pattern: the longest run first
unfoldable pub blanks : (Text → Option Text) → Text → Option Text
blanks k [] = k []
blanks k (c ∷ s) =
    let rest = blanks k s in
    if is_blank c then elim rest [ none ↦ k (c ∷ s) | some r ↦ some r ] else k (c ∷ s)

-- a literal before the rest of a pattern
unfoldable pub literal : Text → (Text → Option Text) → Text → Option Text
literal t k s = if has_prefix s t then k (drop (length t) s) else none

-- `$` at the end of a line
unfoldable pub at_line_end : Text → Option Text
at_line_end [] = some empty
at_line_end (c ∷ s) = if c == 10 then some empty else none

-- `\s*│\s*$`
unfoldable pub row_end : Text → Option Text
unfolding blanks literal at_line_end
row_end = blanks (literal (lit "│") (blanks at_line_end))

-- `(.+?)` before the end of a row: the shortest text; the Boolean tells that a rune has been taken.
unfoldable pub value : Bool → Text → Option Text
unfolding row_end
value some_taken [] =
    if some_taken then elim (row_end []) [ none ↦ none | some r ↦ some [] ] else none
value some_taken (c ∷ s) =
    let rest = value true s in
    let here = if some_taken then row_end (c ∷ s) else none in
    elim here [
      | some r ↦ some []
      | none ↦ if c == 10 then none else elim rest [ none ↦ none | some v ↦ some (c ∷ v) ]
    ]

-- `│\s*Config\s*│\s*(.+?)\s*│\s*$` at the front
unfoldable pub config_row : Text → Option Text
unfolding blanks literal value
config_row =
    literal (lit "│")
      (blanks (literal (lit "Config") (blanks (literal (lit "│") (blanks (value false))))))

-- `FindStringSubmatch` with `(?m)^`; the Boolean tells that a line starts here.
unfoldable pub find_row : Bool → Text → Option Text
unfolding config_row
find_row starts [] = if starts then config_row [] else none
find_row starts (c ∷ s) =
    let rest = find_row (c == 10) s in
    let here = if starts then config_row (c ∷ s) else none in
    elim here [ some v ↦ some v | none ↦ rest ]

module _ (m : Machine) where
  -- `expandUser`
  unfoldable pub expand_user : Text → Text
  expand_user path =
      if has_prefix path (lit "~/")
      then elim m.home [
        | none ↦ path
        | some home ↦ if is_empty home then path else m.join_path home (drop 2 path)
      ]
      else path

  -- `runStatusAll`
  unfoldable pub run_status_all : Text
  run_status_all =
      let command = command_context m (lit "status" ∷ lit "--all" ∷ []) in
      (m.combined_output command.0 command.1).0

  -- what the first call of `ConfigPath` finds
  unfoldable pub discover_config : Text
  unfolding expand_user run_status_all find_row
  discover_config =
      let v = trim_space (m.getenv (lit "OPENCLAW_CONFIG_PATH")) in
      let w = trim_space (m.getenv (lit "OPENCLAW_CONFIG")) in
      if not (is_empty v)
      then expand_user v
      else if not (is_empty w)
      then expand_user w
      else if is_empty run_status_all
      then empty
      else elim (find_row true run_status_all) [
        | none ↦ empty
        | some row ↦ expand_user (trim_space row)
      ]

  -- `ConfigPath`; the state is what `configOnce` has let through.
  unfoldable pub config_path : Option Text → Text × Option Text
  unfolding discover_config
  config_path none = (discover_config, some discover_config)
  config_path (some p) = (p, some p)
