-- ===== src/Collector/Sessions.antt =====
-- internal/collector/openclaw.go: the sessions of the agents, and which of them an agent shows.
-- `one_decimal v d` is `fmt.Sprintf("%.1f", float64(v) / d)`.
pub mod Best
use monitor_agent.Base.{
  ℕ, zero, suc, ◌+◌, ◌*◌, ◌/◌, ◌%◌, Bool, true, false, not, ◌&&◌, ◌||◌, Option, none, some, List,
  [], ◌∷◌, ◌++◌, map, Text, lit, empty, is_empty, text_eq, trim_space, has_prefix, drop, length,
  split, words, join, format_nat, leb, ltb, ◌==◌, if◌then◌else◌,
}
use monitor_agent.Base.Int.{ℤ, pos, pos_part, leb_ℤ, ltb_ℤ}
use monitor_agent.Collector.Words.{has_suffix, to_lower}
use monitor_agent.Collector.Table.{Row, cell, parse_table}
use monitor_agent.Collector.Agents.{Agent}

-- `openClawSessionSnapshot`
pub record Session : Type 0 where
  pub agent_id : Text
  pub key : Text
  pub model : Text
  pub tokens : Text

-- what `json.Unmarshal` reads of a session
pub record SessionItem : Type 0 where
  pub key : Text
  pub agent_id : Text
  pub model : Text
  pub total_tokens : ℤ
  pub context_tokens : ℤ

-- `parseAgentIDFromSessionKey`
unfoldable pub parse_agent_id_from_session_key : Text → Text
parse_agent_id_from_session_key key =
    let t = trim_space key in
    if has_prefix t (lit "agent:")
    then elim (split b':' (drop (length (lit "agent:")) t)) [ [] ↦ empty | p ∷ ps ↦ trim_space p ]
    else empty

-- `preferSessionSnapshot`
unfoldable pub prefer_session_snapshot : Session → Session → Bool
prefer_session_snapshot candidate existing =
    let candidate_main = has_suffix candidate.key (lit ":main") in
    let existing_main = has_suffix existing.key (lit ":main") in
    if candidate_main && not existing_main
    then true
    else if existing_main && not candidate_main
    then false
    else is_empty existing.key

-- the entry of `bestByAgent` for one agent, after one more session
unfoldable pub pick : Text → Session → Option Session → Option Session
pick id s best = if is_empty s.agent_id || not (text_eq s.agent_id id) then best else elim best [
  | none ↦ some s
  | some b ↦ if prefer_session_snapshot s b then some s else some b
]

unfoldable pub best_by_agent : Text → Option Session → List Session → Option Session
unfolding pick
best_by_agent id best [] = best
best_by_agent id best (s ∷ ss) = best_by_agent id (pick id s best) ss

-- what an agent gets of its session
unfoldable pub annotate : Agent → Option Session → Agent
annotate a none = a
annotate a (some s) = record a {
  session_model = if is_empty a.session_model then trim_space s.model else a.session_model;
  session_tokens = if is_empty a.session_tokens then trim_space s.tokens else a.session_tokens;
}

-- `annotateAgentsWithSessions`, by the sessions that it found
unfoldable pub annotate_agents_with_sessions : List Session → List Agent → List Agent
unfolding annotate best_by_agent
annotate_agents_with_sessions sessions agents =
    map (λ (a : Agent). annotate a (best_by_agent a.id none sessions)) agents

module _ (one_decimal : ℕ → ℕ → Text) where
  -- `formatCompactTokenCount` of a count that is not negative
  unfoldable pub format_compact_token_count : ℕ → Text
  format_compact_token_count v =
      if leb 1_000_000 v
      then one_decimal v 1_000_000 ++ lit "m"
      else if leb 1_000 v
      then (if v % 1_000 == 0
          then format_nat (v / 1_000) ++ lit "k"
          else one_decimal v 1_000 ++ lit "k")
      else format_nat v

  -- `formatSessionTokens`
  unfoldable pub format_session_tokens : ℤ → ℤ → Text
  unfolding format_compact_token_count
  format_session_tokens total context =
      let some_total = ltb_ℤ (pos 0) total in
      let some_context = ltb_ℤ (pos 0) context in
      let count = λ (v : ℤ). format_compact_token_count (pos_part v) in
      if not some_total && not some_context
      then empty
      else if some_context && some_total
      then count total ++ lit " / " ++ count context
      else if some_total
      then count total
      else count context

  -- the loop of `collectSessionsJSON`
  unfoldable pub listed_sessions : List SessionItem → List Session
  unfolding parse_agent_id_from_session_key format_session_tokens
  listed_sessions [] = []
  listed_sessions (i ∷ is) =
      let rest = listed_sessions is in
      let given = trim_space i.agent_id in
      let id = if is_empty given then parse_agent_id_from_session_key i.key else given in
      if is_empty id
      then rest
      else record {
        agent_id = id;
        key = trim_space i.key;
        model = trim_space i.model;
        tokens = format_session_tokens i.total_tokens i.context_tokens;
      }
        ∷ rest

module _ (fold : ℕ → ℕ) where
  -- `normalizeSessionTokens`
  unfoldable pub normalize_session_tokens : Text → Text
  normalize_session_tokens value =
      let v = join (words (trim_space value)) (lit " ") in
      let lower = to_lower fold v in
      if is_empty (trim_space value)
      then empty
      else if text_eq lower (lit "unknown") || has_prefix lower (lit "unknown/")
      then empty
      else v

  -- the loop of `parseSessionsTable`
  unfoldable pub session_rows : List Row → List Session
  unfolding parse_agent_id_from_session_key normalize_session_tokens
  session_rows [] = []
  session_rows (row ∷ rows) =
      let rest = session_rows rows in
      let key = trim_space (cell (lit "Key") row) in
      let id = parse_agent_id_from_session_key key in
      if is_empty id
      then rest
      else record {
        agent_id = id;
        key = key;
        model = trim_space (cell (lit "Model") row);
        tokens = normalize_session_tokens (cell (lit "Tokens") row);
      }
        ∷ rest

  -- `parseSessionsTable`
  unfoldable pub parse_sessions_table : List Text → List Session
  unfolding session_rows
  parse_sessions_table lines = session_rows (
      parse_table fold lines (lit "Sessions") (lit "Key")
        (lit "Kind" ∷ lit "Age" ∷ lit "Model" ∷ lit "Tokens" ∷ []))
