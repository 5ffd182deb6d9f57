-- ===== src/Collector/Status.antt =====
-- internal/collector/openclaw.go: `parseOpenClawStatusAll`, over the lines of the output.
use monitor_agent.Base.{
  Bool, Option, none, some, List, [], ◌∷◌, ◌++◌, Text, lit, is_empty, trim_space, split,
  if◌then◌else◌,
}
use monitor_agent.Collector.Words.{equal_fold}
use monitor_agent.Collector.Table.{
  Row, cell, find_section_start, parse_table, parse_table_with_header_at, parse_key_value_table,
}
use monitor_agent.Collector.Agents.{Agent, parse_agents_table, parse_agents_loose}
use monitor_agent.Collector.Sessions.{
  Session, parse_sessions_table, listed_sessions, annotate_agents_with_sessions,
}
use monitor_agent.Collector.Env.{Env, run_quick_cli}
use monitor_agent.Collector.Extras.{Update, Gateway, Models, Daemon}
use monitor_agent.Collector.Diagnosis.{Diagnosis, parse_diagnosis}

pub record Overview : Type 0 where
  pub version : Text
  pub os : Text
  pub node : Text
  pub config : Text
  pub dashboard : Text
  pub tailscale : Text
  pub channel : Text
  pub update : Text
  pub gateway : Text
  pub gateway_self : Text
  pub gateway_service : Text
  pub node_service : Text
  pub agents_summary : Text

pub record Account : Type 0 where
  pub id : Text
  pub enabled : Bool
  pub status : Text

pub record Channel : Type 0 where
  pub type : Text
  pub enabled : Bool
  pub state : Text
  pub detail : Text
  pub accounts : List Account

-- `OpenClawInfo`; `Bindings` and `Model` are never set.
pub record Info : Type 0 where
  pub overview : Option Overview
  pub agents : List Agent
  pub channels : List Channel
  pub diagnosis : Option Diagnosis
  pub update : Option Update
  pub gateway : Option Gateway
  pub models : Option Models
  pub daemon : Option Daemon

-- an overview from the pairs of its table
unfoldable pub overview_of : Row → Overview
overview_of row =
    let get = λ (key : Text). trim_space (cell key row) in
    record {
      version = get (lit "Version");
      os = get (lit "OS");
      node = get (lit "Node");
      config = get (lit "Config");
      dashboard = get (lit "Dashboard");
      tailscale = get (lit "Tailscale");
      channel = get (lit "Channel");
      update = get (lit "Update");
      gateway = get (lit "Gateway");
      gateway_self = get (lit "Gateway self");
      gateway_service = get (lit "Gateway service");
      node_service = get (lit "Node service");
      agents_summary = get (lit "Agents");
    }

module _ (env : Env) where
  -- `parseOverviewTable`
  unfoldable pub parse_overview_table : List Text → Text → Option Overview
  unfolding overview_of
  parse_overview_table lines title = elim (parse_key_value_table env.fold lines title) [
    | [] ↦ none
    | p ∷ ps ↦ some (overview_of (p ∷ ps))
  ]

  -- the loop of `parseChannelAccounts`
  unfoldable pub account_rows : List Row → List Account
  account_rows [] = []
  account_rows (row ∷ rows) =
      let rest = account_rows rows in
      let id = trim_space (cell (lit "Account") row) in
      let status = trim_space (cell (lit "Status") row) in
      if is_empty id
      then rest
      else record { id = id; enabled = equal_fold env.fold status (lit "OK"); status = status }
        ∷ rest

  -- `parseChannelAccounts`
  unfoldable pub parse_channel_accounts : List Text → Text → List Account
  unfolding account_rows
  parse_channel_accounts lines channel_type =
      elim (find_section_start env.fold (channel_type ++ lit " accounts") lines) [
        | none ↦ []
        | some ls ↦
            account_rows
              (parse_table_with_header_at (lit "Account") (lit "Status" ∷ lit "Notes" ∷ []) ls)
      ]

  -- the loop over the rows of the channels
  unfoldable pub channel_rows : List Text → List Row → List Channel
  unfolding parse_channel_accounts
  channel_rows lines [] = []
  channel_rows lines (row ∷ rows) =
      let rest = channel_rows lines rows in
      let type = trim_space (cell (lit "Channel") row) in
      if is_empty type
      then rest
      else record {
        type = type;
        enabled = equal_fold env.fold (trim_space (cell (lit "Enabled") row)) (lit "ON");
        state = trim_space (cell (lit "State") row);
        detail = trim_space (cell (lit "Detail") row);
        accounts = parse_channel_accounts lines type;
      }
        ∷ rest

  unfoldable pub parse_channels : List Text → List Channel
  unfolding channel_rows
  parse_channels lines = channel_rows lines (
      parse_table env.fold lines (lit "Channels") (lit "Channel")
        (lit "Enabled" ∷ lit "State" ∷ lit "Detail" ∷ []))

  -- `collectSessionsJSON`
  unfoldable pub collect_sessions_json : List Session
  collect_sessions_json =
      let out = run_quick_cli env (lit "sessions" ∷ lit "--all-agents" ∷ lit "--json" ∷ []) in
      if is_empty out then [] else elim (env.parse_sessions out) [
        | none ↦ []
        | some items ↦ listed_sessions env.one_decimal items
      ]

  -- the sessions that `annotateAgentsWithSessions` uses
  unfoldable pub found_sessions : List Text → List Session
  unfolding collect_sessions_json
  found_sessions lines = elim (parse_sessions_table env.fold lines) [
    | [] ↦ collect_sessions_json
    | s ∷ ss ↦ s ∷ ss
  ]

  unfoldable pub parse_agents : List Text → List Agent
  parse_agents lines = elim (parse_agents_table env.fold lines) [
    | [] ↦ parse_agents_loose env.fold lines
    | a ∷ agents ↦ a ∷ agents
  ]

  -- `parseOpenClawStatusAll`
  unfoldable pub parse_openclaw_status_all : Text → Info
  unfolding parse_overview_table parse_channels parse_agents found_sessions
  parse_openclaw_status_all out =
      let lines = split 10 out in
      record {
        overview = elim (parse_overview_table lines (lit "Overview")) [
          | some o ↦ some o
          | none ↦ parse_overview_table lines (lit "Status")
        ];
        agents = annotate_agents_with_sessions (found_sessions lines) (parse_agents lines);
        channels = parse_channels lines;
        diagnosis = parse_diagnosis lines;
        update = none;
        gateway = none;
        models = none;
        daemon = none;
      }
