-- ===== src/Collector/Sessions/Best.antt =====
-- Which session an agent shows, and what the annotation leaves alone.
use monitor_agent.Base.{
  ◌≡◌, refl, sym, arith, Bool, true, false, not, ◌&&◌, Option, none, some, ◌⊎◌, inl, inr, List, [],
  ◌∷◌, All, Text, lit, is_empty, text_eq,
}
use monitor_agent.Collector.Words.{has_suffix}
use monitor_agent.Collector.Agents.{Agent}
use monitor_agent.Collector.Sessions.{
  Session, pick, best_by_agent, prefer_session_snapshot, annotate, annotate_agents_with_sessions,
}

abbrev pub Has : Session → List Session → Type 0
Has s [] = ⊥
Has s (t ∷ ts) = (s ≡ t) ⊎ Has s ts

-- a session of the agent
abbrev pub is_of : Text → Session → Bool
is_of id s = not (is_empty s.agent_id) && text_eq s.agent_id id

abbrev pub is_main : Session → Bool
is_main s = has_suffix s.key (lit ":main")

-- A main session is chosen where the agent has one.
abbrev pub Leads : Text → Session → Session → Type 0
Leads id s t = (is_of id t ≡ true) → (is_main t ≡ true) → is_main s ≡ true

-- What is chosen for an agent: one of its sessions, a main one if there is any.
pub record Chosen (id : Text) (sessions : List Session) (s : Session) : Type 0 where
  pub present : Has s sessions
  pub owned : is_of id s ≡ true
  pub leads : All (Leads id s) sessions

-- the same with an earlier choice
record ChosenFrom (id : Text) (best : Option Session) (ss : List Session) (s : Session)
    : Type 0 where
  origin : (best ≡ some s) ⊎ (Has s ss × (is_of id s ≡ true))
  leads : All (Leads id s) ss
  keeps : (b : Session) → best ≡ some b → is_main b ≡ true → is_main s ≡ true

pick-none :
    (id : Text) (t : Session)
    → ((is_of id t ≡ false) × (pick id t none ≡ none))
      ⊎ ((is_of id t ≡ true) × (pick id t none ≡ some t))
unfolding pick
pick-none id t = ground arith

-- Of two sessions the earlier one stays, unless only the later one is a main session or the earlier
-- one has no key.
pick-some :
    (id : Text) (t b : Session)
    → ((pick id t (some b) ≡ some b) × Leads id b t)
      ⊎ ((pick id t (some b) ≡ some t)
          × (is_of id t ≡ true)
          × (is_main b ≡ true → is_main t ≡ true))
unfolding pick prefer_session_snapshot
pick-some id t b = ground arith

chosen_from :
    (id : Text) (best : Option Session) (ss : List Session) (s : Session)
    → best_by_agent id best ss ≡ some s
    → ChosenFrom id best ss s
unfolding best_by_agent
chosen_from id best [] s h = record {
  origin = inl h;
  leads = tt;
  keeps = λ b e m. (let p : b ≡ s = cc in rw (← p) m);
}
chosen_from id none (t ∷ ts) s h = elim (pick-none id t) [
  | inl (other, e) ↦
      let ih = chosen_from id none ts s (rw e at h) in
      record {
        origin = elim ih.origin [ inl x ↦ absurd (cc) | inr (m, o) ↦ inr (inr m, o) ];
        leads = (λ o m. absurd (ground arith), ih.leads);
        keeps = λ b x m. absurd (cc);
      }
  | inr (own, e) ↦
      let ih = chosen_from id (some t) ts s (rw e at h) in
      record {
        origin = elim ih.origin [
          | inl x ↦ (let p : t ≡ s = cc in inr (inl (sym p), rw (← p) own))
          | inr (m, o) ↦ inr (inr m, o)
        ];
        leads = (λ o m. ih.keeps t refl m, ih.leads);
        keeps = λ b x m. absurd (cc);
      }
]
chosen_from id (some b) (t ∷ ts) s h = elim (pick-some id t b) [
  | inl (e, l) ↦
      let ih = chosen_from id (some b) ts s (rw e at h) in
      record {
        origin = elim ih.origin [ inl x ↦ inl x | inr (m, o) ↦ inr (inr m, o) ];
        leads = (λ o m. ih.keeps b refl (l o m), ih.leads);
        keeps = ih.keeps;
      }
  | inr (e, own, k) ↦
      let ih = chosen_from id (some t) ts s (rw e at h) in
      record {
        origin = elim ih.origin [
          | inl x ↦ (let p : t ≡ s = cc in inr (inl (sym p), rw (← p) own))
          | inr (m, o) ↦ inr (inr m, o)
        ];
        leads = (λ o m. ih.keeps t refl m, ih.leads);
        keeps = λ c x m. (let p : b ≡ c = cc in ih.keeps t refl (k (rw p m)));
      }
]

-- If a session is chosen for an agent, it is one of its own, and a main session if it has one.
pub best_by_agent-Chosen :
    (id : Text) (ss : List Session) (s : Session)
    → best_by_agent id none ss ≡ some s
    → Chosen id ss s
best_by_agent-Chosen id ss s h =
    let c = chosen_from id none ss s h in
    elim c.origin [
      | inl e ↦ absurd (cc)
      | inr (m, o) ↦ record { present = m; owned = o; leads = c.leads }
    ]

-- What the annotation leaves: everything but an empty model and an empty number of tokens.
pub record Kept (a b : Agent) : Type 0 where
  pub id : b.id ≡ a.id
  pub name : b.name ≡ a.name
  pub sessions : b.sessions ≡ a.sessions
  pub active : b.active ≡ a.active
  pub bootstrap : b.bootstrap ≡ a.bootstrap
  pub session_model : is_empty a.session_model ≡ false → b.session_model ≡ a.session_model
  pub session_tokens : is_empty a.session_tokens ≡ false → b.session_tokens ≡ a.session_tokens

abbrev pub AllKept : List Agent → List Agent → Type 0
AllKept [] [] = Unit
AllKept (a ∷ as1) (b ∷ bs) = Kept a b × AllKept as1 bs
AllKept _ _ = ⊥

annotate-Kept : (a : Agent) (o : Option Session) → Kept a (annotate a o)
unfolding annotate
annotate-Kept a none = record {
  id = refl;
  name = refl;
  sessions = refl;
  active = refl;
  bootstrap = refl;
  session_model = λ h. refl;
  session_tokens = λ h. refl;
}
annotate-Kept a (some s) = record {
  id = refl;
  name = refl;
  sessions = refl;
  active = refl;
  bootstrap = refl;
  session_model = λ h. rw h refl;
  session_tokens = λ h. rw h refl;
}

-- The annotation keeps the agents and their order, and fills only what is empty.
pub annotate_agents_with_sessions-Kept :
    (sessions : List Session) (agents : List Agent)
    → AllKept agents (annotate_agents_with_sessions sessions agents)
unfolding annotate_agents_with_sessions
annotate_agents_with_sessions-Kept sessions [] = tt
annotate_agents_with_sessions-Kept sessions (a ∷ agents) = (
  annotate-Kept a (best_by_agent a.id none sessions),
  annotate_agents_with_sessions-Kept sessions agents,
)
