-- ===== src/Collector/Info.antt =====
-- internal/collector/openclaw.go: `CollectOpenClawInfo` and what else the heartbeat asks for.
pub mod Merge
use monitor_agent.Base.{
  ℕ, Bool, true, false, not, ◌&&◌, ◌||◌, Option, none, some, List, [], ◌∷◌, ◌++◌, map, length, Text,
  lit, empty, is_empty, text_eq, trim_space, format_nat, if◌then◌else◌, ◌==◌,
}
use monitor_agent.Base.Int.{ℤ, pos, leb_ℤ, ltb_ℤ}
use monitor_agent.Collector.Words.{any, strip_ansi}
use monitor_agent.Collector.Agents.{Agent, listed_agents}
use monitor_agent.Collector.Fingerprint.{Item, agents_fingerprint}
use monitor_agent.Collector.Env.{Env, Output, both_streams, run_quick_cli}
use monitor_agent.Collector.Extras.{
  collect_update_status, collect_gateway_status, collect_models_status, collect_daemon_status,
}
use monitor_agent.Collector.Status.{Overview, Info, parse_openclaw_status_all}

-- "\r\n" and then "\r" replaced by "\n"
unfoldable pub unix_lines : Text → Text
unix_lines [] = []
unix_lines (c ∷ []) = (if c == 13 then 10 else c) ∷ []
unix_lines (c ∷ d ∷ s) =
    let rest = unix_lines (d ∷ s) in
    if c == 13 then (if d == 10 then rest else 10 ∷ rest) else c ∷ rest

-- the entry of `fallbackByID` for an id: the last agent with it
unfoldable pub fallback_by_id : Text → List Agent → Option Agent
fallback_by_id id [] = none
fallback_by_id id (a ∷ agents) =
    let rest = fallback_by_id id agents in
    elim rest [
      | some b ↦ some b
      | none ↦ if not (is_empty a.id) && text_eq a.id id then some a else none
    ]

abbrev pub filled_text : Text → Text → Text
filled_text own other = if is_empty (trim_space own) && not (is_empty other) then other else own

abbrev pub is_zero : ℤ → Bool
is_zero n = leb_ℤ n (pos 0) && leb_ℤ (pos 0) n

-- what an agent takes from the list
unfoldable pub merge_agent : Agent → Option Agent → Agent
merge_agent a none = a
merge_agent a (some b) = record a {
  name = filled_text a.name b.name;
  sessions = if is_zero a.sessions && ltb_ℤ (pos 0) b.sessions then b.sessions else a.sessions;
  active = filled_text a.active b.active;
  bootstrap = filled_text a.bootstrap b.bootstrap;
}

unfoldable pub needs_names : List Agent → Bool
needs_names agents = any (λ a. is_empty (trim_space a.name)) agents

-- the agents after the fallback to the list
unfoldable pub merge_agents : List Agent → List Agent → List Agent
unfolding fallback_by_id merge_agent needs_names
merge_agents [] listed = listed
merge_agents (a ∷ agents) listed =
    if needs_names (a ∷ agents)
    then map (λ (b : Agent). merge_agent b (fallback_by_id b.id listed)) (a ∷ agents)
    else a ∷ agents

module _ (env : Env) where
  -- `collectAgentsList`
  unfoldable pub collect_agents_list : List Agent
  collect_agents_list =
      let out = run_quick_cli env (lit "agents" ∷ lit "list" ∷ lit "--json" ∷ []) in
      if is_empty out
      then []
      else elim (env.parse_agents out) [ none ↦ [] | some items ↦ listed_agents env.fold items ]

  -- `CollectOpenClawInfo`
  unfoldable pub collect_openclaw_info : Option Info
  unfolding unix_lines merge_agents collect_agents_list
  collect_openclaw_info =
      let o = env.run (lit "status" ∷ lit "--all" ∷ []) in
      let info = parse_openclaw_status_all env (strip_ansi (unix_lines (both_streams o))) in
      if o.failed
      then none
      else some (record {
        overview = info.overview;
        agents = merge_agents info.agents collect_agents_list;
        channels = info.channels;
        diagnosis = info.diagnosis;
        update = collect_update_status env;
        gateway = collect_gateway_status env;
        models = collect_models_status env;
        daemon = collect_daemon_status env;
      })

  -- `CollectAgentsFingerprint`
  unfoldable pub collect_agents_fingerprint : (List Item → Option Text) → (Text → Text) → Text
  collect_agents_fingerprint marshal sha1 = agents_fingerprint marshal sha1 collect_agents_list

  -- an overview with nothing but the summary
  abbrev pub summary_only : Text → Overview
  summary_only t = record {
    version = empty;
    os = empty;
    node = empty;
    config = empty;
    dashboard = empty;
    tailscale = empty;
    channel = empty;
    update = empty;
    gateway = empty;
    gateway_self = empty;
    gateway_service = empty;
    node_service = empty;
    agents_summary = t;
  }

  -- `CollectAgentsOnlyInfo`
  unfoldable pub agents_only : List Agent → Option Info
  agents_only [] = none
  agents_only (a ∷ agents) = some (record {
    overview = some (summary_only (format_nat (length (a ∷ agents)) ++ lit " agents"));
    agents = a ∷ agents;
    channels = [];
    diagnosis = none;
    update = none;
    gateway = none;
    models = none;
    daemon = none;
  })

  unfoldable pub collect_agents_only_info : Option Info
  unfolding agents_only
  collect_agents_only_info = agents_only collect_agents_list
