-- ===== src/Collector/Examples.antt =====
-- The collector on small outputs of the openclaw CLI.
use monitor_agent.Base.{
  ℕ, ◌≡◌, ◌≢◌, if◌then◌else◌, refl, none, some, List, [], ◌∷◌, ◌++◌, Text, lit, empty, trim_space,
  text_eq, split, contains, has_prefix,
}
use monitor_agent.Base.Int.{pos}
use mathlib.Core.List.Perm
use monitor_agent.Collector.Words.{has_suffix, to_lower}
use monitor_agent.Collector.Table.{
  parse_table, find_section_start, parse_table_with_header_at, find_header, header_column,
  table_rows, table_row, zip_row, cell, is_table_separator, is_next_section, split_table_row,
  is_title,
}
use monitor_agent.Collector.Table.Rows.{channel_headers, parse_table-Channels}
use monitor_agent.Collector.Agents.{Agent}
use monitor_agent.Collector.Cells.{parse_agent_id_and_name}
use monitor_agent.Collector.Cells.Names.{parse_agent_id_and_name_printed}
use monitor_agent.Collector.Sessions.{Session, pick, prefer_session_snapshot, best_by_agent}
use monitor_agent.Collector.Fingerprint.{agents_fingerprint}
use monitor_agent.Collector.Fingerprint.Order.{agents_fingerprint-Perm}
use monitor_agent.Collector.Words.{any}
use monitor_agent.Collector.Skills.{
  DirEntry, scan_skills, scan_roots, scan_root, scan_entries, scan_entry,
}
use monitor_agent.Collector.Skills.Seen.{count, is_below, count-scan_skills}
use monitor_agent.Base.{Option, true, false}
use monitor_agent.Collector.Info.{merge_agents}
use monitor_agent.Collector.Info.Merge.{AllFilled, merge_agents-Filled}

abbrev agent : Text → Text → Agent
agent id name = record {
  id = id;
  name = name;
  sessions = pos 0;
  active = empty;
  bootstrap = empty;
  session_model = empty;
  session_tokens = empty;
}

abbrev ceo : Agent
ceo = agent (lit "ceo") (lit "CEO")

abbrev nameless : Agent
nameless = agent (lit "ops") empty

abbrev same : ℕ → ℕ
same c = c

abbrev session : Text → Session
session key = record { agent_id = lit "ceo"; key = key; model = lit "opus"; tokens = lit "12k" }

abbrev two_sessions : List Session
two_sessions = session (lit "agent:ceo:mail") ∷ session (lit "agent:ceo:main") ∷ []

abbrev session_lines : List Text
session_lines =
    lit "Sessions" ∷ lit "| Key | Kind |" ∷ lit "|---|---|" ∷ lit "| agent:ceo:main | direct |" ∷ []

abbrev channel_lines : List Text
channel_lines = lit "| Channel | Enabled | State | Detail |" ∷ lit "| Telegram | ON | OK | - |" ∷ []

row_read :
    parse_table same session_lines (lit "Sessions") (lit "Key") (lit "Kind" ∷ [])
    ≡ ((lit "Key", lit "agent:ceo:main") ∷ (lit "Kind", lit "direct") ∷ []) ∷ []
unfolding parse_table find_section_start parse_table_with_header_at find_header header_column
    table_rows table_row zip_row cell is_table_separator is_next_section split_table_row lit text_eq
    trim_space split contains has_prefix is_title
row_read = refl

no_title : find_section_start same (lit "Channels") (lit "Overview" ∷ []) ≡ none
unfolding find_section_start is_title lit text_eq trim_space to_lower
no_title = refl

parse_table-Channels_example :
    parse_table same
      ((lit "Overview" ∷ []) ++ lit "Channels" ∷ channel_lines)
      (lit "Channels")
      (lit "Channel")
      channel_headers
    ≡ []
parse_table-Channels_example =
    parse_table-Channels same (lit "Overview" ∷ []) channel_lines no_title

chosen_main : best_by_agent (lit "ceo") none two_sessions ≡ some (session (lit "agent:ceo:main"))
unfolding best_by_agent pick prefer_session_snapshot has_suffix lit text_eq
chosen_main = refl

agents_fingerprint-Perm_example :
    agents_fingerprint (λ items. some (lit "items")) (λ s. s) (ceo ∷ nameless ∷ [])
    ≡ agents_fingerprint (λ items. some (lit "items")) (λ s. s) (nameless ∷ ceo ∷ [])
agents_fingerprint-Perm_example =
    agents_fingerprint-Perm (λ items. some (lit "items")) (λ s. s) (ceo ∷ nameless ∷ [])
      (nameless ∷ ceo ∷ []) (Perm.swap nameless ceo [])

merge_agents-Filled_example :
    (nameless ∷ [] ≡ []
      → merge_agents (nameless ∷ []) (agent (lit "ops") (lit "Ops") ∷ [])
        ≡ agent (lit "ops") (lit "Ops") ∷ [])
    × (nameless ∷ [] ≢ []
        → AllFilled
            (nameless ∷ [])
            (merge_agents (nameless ∷ []) (agent (lit "ops") (lit "Ops") ∷ [])))
merge_agents-Filled_example =
    merge_agents-Filled (nameless ∷ []) (agent (lit "ops") (lit "Ops") ∷ [])

trimmed_ceo : trim_space (lit "ceo") ≡ lit "ceo"
unfolding lit trim_space
trimmed_ceo = refl

trimmed_name : trim_space (lit "The (big) CEO") ≡ lit "The (big) CEO"
unfolding lit trim_space
trimmed_name = refl

parse_agent_id_and_name_printed_example :
    parse_agent_id_and_name (lit "ceo" ++ (lit " (" ++ (lit "The (big) CEO" ++ lit ")")))
    ≡ (lit "ceo", lit "The (big) CEO")
unfolding lit
parse_agent_id_and_name_printed_example =
    parse_agent_id_and_name_printed (lit "ceo") (lit "The (big) CEO") trimmed_ceo refl
      (refl, (refl, (refl, tt))) trimmed_name

abbrev join_parts : Text → Text → Text
join_parts a b = a ++ lit "/" ++ b

-- one directory with one skill and one file
abbrev listing : Text → Option (List DirEntry)
listing path = some (
    record { name = lit "mail"; is_dir = true }
    ∷ record { name = lit "README"; is_dir = false }
    ∷ [])

abbrev roots : List Text
roots = lit "/s" ∷ lit " /s" ∷ []

-- Two spellings of the same root report the skill once.
count-scan_skills_example :
    count (lit "/s/mail") (scan_skills join_parts listing roots)
    ≡ (if any (is_below join_parts listing (lit "/s/mail")) roots then 1 else 0)
count-scan_skills_example = count-scan_skills join_parts listing (lit "/s/mail") roots

mail_once : count (lit "/s/mail") (scan_skills join_parts listing roots) ≡ 1
unfolding count scan_skills scan_roots scan_root scan_entries scan_entry lit text_eq trim_space
mail_once = refl
