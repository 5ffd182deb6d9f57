-- ===== src/Collector/Info/Merge.antt =====
-- What the list of agents adds to the agents of the status command.
use monitor_agent.Base.{
  ◌≡◌, ◌≢◌, refl, false, Bool-cases, inl, inr, Option, none, some, List, [], ◌∷◌, map, Text,
  is_empty, trim_space,
}
use monitor_agent.Collector.Agents.{Agent}
use monitor_agent.Collector.Info.{
  fallback_by_id, filled_text, is_zero, merge_agent, needs_names, merge_agents,
}

-- A value stays unless it is blank.
abbrev pub KeepsText : Text → Text → Type 0
KeepsText own now = is_empty (trim_space own) ≡ false → now ≡ own

-- What the merge leaves of an agent: all that the status command gave.
pub record Filled (a b : Agent) : Type 0 where
  pub id : b.id ≡ a.id
  pub session_model : b.session_model ≡ a.session_model
  pub session_tokens : b.session_tokens ≡ a.session_tokens
  pub name : KeepsText a.name b.name
  pub active : KeepsText a.active b.active
  pub bootstrap : KeepsText a.bootstrap b.bootstrap
  pub sessions : is_zero a.sessions ≡ false → b.sessions ≡ a.sessions

abbrev pub AllFilled : List Agent → List Agent → Type 0
AllFilled [] [] = Unit
AllFilled (a ∷ xs) (b ∷ ys) = Filled a b × AllFilled xs ys
AllFilled _ _ = ⊥

filled_text-KeepsText : (own other : Text) → KeepsText own (filled_text own other)
filled_text-KeepsText own other h = rw h refl

merge_agent-Filled : (a : Agent) (o : Option Agent) → Filled a (merge_agent a o)
unfolding merge_agent
merge_agent-Filled a none = record {
  id = refl;
  session_model = refl;
  session_tokens = refl;
  name = λ h. refl;
  active = λ h. refl;
  bootstrap = λ h. refl;
  sessions = λ h. refl;
}
merge_agent-Filled a (some b) = record {
  id = refl;
  session_model = refl;
  session_tokens = refl;
  name = filled_text-KeepsText a.name b.name;
  active = filled_text-KeepsText a.active b.active;
  bootstrap = filled_text-KeepsText a.bootstrap b.bootstrap;
  sessions = λ h. rw h refl;
}

map-Filled :
    (listed agents : List Agent)
    → AllFilled agents (map (λ (b : Agent). merge_agent b (fallback_by_id b.id listed)) agents)
map-Filled listed [] = tt
map-Filled listed (a ∷ agents) =
    (merge_agent-Filled a (fallback_by_id a.id listed), map-Filled listed agents)

self-Filled : (agents : List Agent) → AllFilled agents agents
self-Filled [] = tt
self-Filled (a ∷ agents) = (
  record {
    id = refl;
    session_model = refl;
    session_tokens = refl;
    name = λ h. refl;
    active = λ h. refl;
    bootstrap = λ h. refl;
    sessions = λ h. refl;
  },
  self-Filled agents,
)

-- If the status command gave agents, the merge keeps them and their order, and fills only what is
-- blank or zero; if it gave none, the listed ones are taken.
pub merge_agents-Filled :
    (agents listed : List Agent)
    → (agents ≡ [] → merge_agents agents listed ≡ listed)
      × (agents ≢ [] → AllFilled agents (merge_agents agents listed))
unfolding merge_agents
merge_agents-Filled [] listed = (λ e. refl, λ h. absurd (h refl))
merge_agents-Filled (a ∷ agents) listed = (
  λ e. cc,
  λ h. elim (Bool-cases (needs_names (a ∷ agents))) [
    | inl y ↦ rw (y, AllFilled) (map-Filled listed (a ∷ agents))
    | inr n ↦ rw (n, AllFilled) (self-Filled (a ∷ agents))
  ],
)
