-- ===== src/Collector/Agents.antt =====
-- internal/collector/openclaw.go: the agents of an installation, from the table of `openclaw status
-- --all` and from `openclaw agents list --json`.
use monitor_agent.Base.{
  ℕ, suc, Bool, true, false, not, ◌&&◌, ◌||◌, Option, none, some, List, [], ◌∷◌, Text, lit, empty,
  is_empty, trim_space, contains, if◌then◌else◌,
}
use monitor_agent.Base.Int.{ℤ, pos}
use monitor_agent.Command.Json.{Json}
use monitor_agent.Collector.Words.{any, get_elem?, parse_int, parse_sessions_value, to_lower}
use monitor_agent.Collector.Cells.{
  parse_agent_id_and_name, one_of, normalize_agent_active, normalize_agent_bootstrap,
}
use monitor_agent.Collector.Table.{
  is_table_separator, is_next_section, split_table_row, find_section_start,
}

-- `OpenClawAgent`
pub record Agent : Type 0 where
  pub id : Text
  pub name : Text
  pub sessions : ℤ
  pub active : Text
  pub bootstrap : Text
  pub session_model : Text
  pub session_tokens : Text

-- what `json.Unmarshal` reads of an agent in the list
pub record AgentItem : Type 0 where
  pub id : Text
  pub name : Text
  pub sessions : Json
  pub active : Text
  pub bootstrap : Text

module _ (fold : ℕ → ℕ) where
  -- `isAgentHeaderRow`
  unfoldable pub is_agent_header_row : List Text → Bool
  is_agent_header_row cols =
      any
        (λ c.
          let lower = to_lower fold (trim_space c) in
          not (is_empty (trim_space c))
          && (one_of (lit "agent" ∷ lit "agents" ∷ lit "sessions" ∷ lit "active" ∷ lit "store" ∷ [])
                lower
              || contains lower (lit "bootstrap")))
        cols

  -- `colIndex`
  unfoldable pub col_index : List Text → List Text → Option ℕ
  col_index names [] = none
  col_index names (c ∷ cs) =
      let rest = col_index names cs in
      if one_of names (to_lower fold (trim_space c))
      then some 0
      else elim rest [ none ↦ none | some n ↦ some (suc n) ]

  abbrev pub cell_at : List Text → Option ℕ → Option Text
  cell_at cols none = none
  cell_at cols (some n) = get_elem? cols n

  -- an agent from its cells, those that are there
  unfoldable pub agent_of : Text → Option Text → Option Text → Option Text → Agent
  agent_of agent_cell bootstrap sessions active = record {
    id = (parse_agent_id_and_name agent_cell).0;
    name = (parse_agent_id_and_name agent_cell).1;
    sessions = elim sessions [ none ↦ pos 0 | some s ↦ parse_int s (pos 0) ];
    active = elim active [ none ↦ empty | some s ↦ normalize_agent_active fold s ];
    bootstrap = elim bootstrap [ none ↦ empty | some s ↦ normalize_agent_bootstrap fold s ];
    session_model = empty;
    session_tokens = empty;
  }

  -- The first loop of `parseAgentsTable`: the header and the lines behind it. The flag is `i == start`.
  unfoldable pub find_agent_header : Bool → List Text → Option (List Text × List Text)
  unfolding is_agent_header_row
  find_agent_header first [] = none
  find_agent_header first (l ∷ ls) =
      let rest = find_agent_header false ls in
      if is_empty (trim_space l) || is_table_separator l
      then rest
      else if is_next_section l && not first
      then none
      else if is_agent_header_row (split_table_row l)
      then some (split_table_row l, ls)
      else rest

  -- its second loop
  unfoldable pub agent_rows : (List Text → Option Agent) → List Text → List Agent
  agent_rows read [] = []
  agent_rows read (l ∷ ls) =
      let rest = agent_rows read ls in
      if is_empty (trim_space l) || is_table_separator l
      then rest
      else if is_next_section l
      then []
      else elim (read (split_table_row l)) [ none ↦ rest | some a ↦ a ∷ rest ]

  unfoldable pub read_agent : List Text → List Text → Option Agent
  unfolding agent_of col_index
  read_agent header cols =
      let col = λ (names : List Text). cell_at cols (col_index names header) in
      elim (col (lit "agent" ∷ lit "agents" ∷ [])) [
        | none ↦ none
        | some c ↦
            if is_empty (trim_space c)
            then none
            else some (
                agent_of (trim_space c) (col (lit "bootstrap file" ∷ lit "bootstrap" ∷ []))
                  (col (lit "sessions" ∷ lit "session" ∷ []))
                  (col (lit "active" ∷ lit "activity" ∷ lit "last active" ∷ [])))
      ]

  -- `parseAgentsTable`
  unfoldable pub parse_agents_table : List Text → List Agent
  unfolding find_agent_header agent_rows read_agent
  parse_agents_table lines = elim (find_section_start fold (lit "Agents") lines) [
    | none ↦ []
    | some ls ↦ elim (find_agent_header true ls) [
      | none ↦ []
      | some (header, behind) ↦ agent_rows (read_agent header) behind
    ]
  ]

  -- one line of `parseAgentsLoose`
  unfoldable pub read_loose : List Text → Option Agent
  unfolding agent_of
  read_loose [] = none
  read_loose (c ∷ cols) =
      let rest = read_loose cols in
      if is_empty (trim_space c)
      then rest
      else some (agent_of (trim_space c) (get_elem? cols 0) (get_elem? cols 1) (get_elem? cols 2))

  -- the loop of `parseAgentsLoose`, which looks for the next section first
  unfoldable pub loose_rows : List Text → List Agent
  unfolding read_loose is_agent_header_row
  loose_rows [] = []
  loose_rows (l ∷ ls) =
      let rest = loose_rows ls in
      let cols = split_table_row l in
      if is_next_section l
      then []
      else if is_table_separator l || is_empty (trim_space l) || is_agent_header_row cols
      then rest
      else elim (read_loose cols) [ none ↦ rest | some a ↦ a ∷ rest ]

  -- `parseAgentsLoose`
  unfoldable pub parse_agents_loose : List Text → List Agent
  unfolding loose_rows
  parse_agents_loose lines = elim (find_section_start fold (lit "Agents") lines) [
    | none ↦ []
    | some [] ↦ []
    | some (title ∷ ls) ↦ loose_rows ls
  ]

  -- one item of `collectAgentsList`
  unfoldable pub listed_agents : List AgentItem → List Agent
  listed_agents [] = []
  listed_agents (i ∷ is) =
      let rest = listed_agents is in
      let id = trim_space i.id in
      if is_empty id
      then rest
      else record {
        id = id;
        name = if is_empty (trim_space i.name) then id else trim_space i.name;
        sessions = parse_sessions_value i.sessions;
        active = normalize_agent_active fold i.active;
        bootstrap = normalize_agent_bootstrap fold i.bootstrap;
        session_model = empty;
        session_tokens = empty;
      }
        ∷ rest
