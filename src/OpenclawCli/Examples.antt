-- ===== src/OpenclawCli/Examples.antt =====
-- The lookup on a machine that has the executable in the home directory.
use monitor_agent.Base.{
  ◌≡◌, refl, true, false, none, some, List, [], ◌∷◌, ◌++◌, Text, lit, empty, text_eq, trim_space,
  has_prefix,
}
use monitor_agent.OpenclawCli.{
  Machine, candidates, resolve_executable, first_usable, is_usable, from_env, from_path, from_home,
}
use monitor_agent.OpenclawCli.Config.{
  find_row, config_row, value, row_end, blanks, literal, at_line_end,
}

abbrev machine : Machine
machine = record {
  getenv = λ key. empty;
  look_path = λ binary. none;
  home = some (lit "/home/u");
  join_path = λ a b. a ++ lit "/" ++ b;
  is_file = λ path. text_eq path (lit "/home/u/.local/bin/openclaw");
  first_line = λ path. none;
  combined_output = λ bin args. (empty, false);
}

abbrev places : List Text
places = lit ".local/bin/openclaw" ∷ []

found_at_home :
    resolve_executable machine (lit "OPENCLAW_BIN") (lit "openclaw") places []
    ≡ lit "/home/u/.local/bin/openclaw"
unfolding resolve_executable first_usable is_usable candidates from_env from_path from_home lit
    text_eq trim_space
found_at_home = refl

-- The row of the table that `ConfigPath` looks for.
row_found :
    find_row true (lit "Overview\n│ Config │ ~/.openclaw/openclaw.json │\n")
    ≡ some (lit "~/.openclaw/openclaw.json")
unfolding find_row config_row value row_end blanks literal at_line_end lit has_prefix
row_found = refl
