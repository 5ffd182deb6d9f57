-- ===== src/Agent/Heartbeat/Recorded.antt =====
-- The times that `sendHeartbeat` of cmd/agent/main.go records, over several heartbeats.
use monitor_agent.Base.{
  ℕ, ◌+◌, ◌≤◌, ◌≡◌, refl, ◌⊎◌, inl, inr, Bool, true, false, Option, none, some, List, [], ◌∷◌, All,
  Text, Bool-cases, Option-cases, if◌then◌else◌,
}
use monitor_agent.Agent.Heartbeat.{
  Beats, Collected, Reading, Due, due, should_collect, attach, collect, beat,
}

-- A time is recorded, and it is not before `t`.
abbrev pub NotBefore : ℕ → Option ℕ → Type 0
NotBefore t none = ⊥
NotBefore t (some u) = t ≤ u

-- the state when the tests are made
abbrev pub counted : Beats → Beats
counted b = record b { count = b.count + 1 }

-- heartbeats, one after the other
unfoldable pub run_beats : (Text → Text) → List Reading → Beats → Beats
run_beats sha1 [] b = b
run_beats sha1 (r ∷ rs) b = run_beats sha1 rs (beat sha1 b r).0

-- What a collection would attach: the data of the first collector that gives some.
abbrev pub chosen : Reading → Option Collected
chosen r = elim r.info [ some c ↦ some c | none ↦ r.fallback ]

-- Data was collected, and `json.Marshal` accepted it.
pub record IsCollected (r : Reading) : Type 0 where
  pub data_of : Collected
  pub is_chosen : chosen r ≡ some data_of
  pub text : Text
  pub is_text : data_of.json ≡ some text

-- A time that is set where the flag is.
pub set-NotBefore :
    (t after : ℕ) (before : Option ℕ) (flag : Bool)
    → t ≤ after
    → (flag ≡ true) ⊎ NotBefore t before
    → NotBefore t (if flag then some after else before)
set-NotBefore t after before true h k = h
set-NotBefore t after before false h (inl e) = absurd (cc)
set-NotBefore t after before false h (inr n) = n

-- A collection ends with no data, or attaches some.
collect_cases :
    (sha1 : Text → Text) (b : Beats) (r : Reading) (d : Due) (P : Beats → Type 0)
    → P b
    → ((c : Collected) → P (attach sha1 b r d c).0)
    → P (collect sha1 b r d).0
unfolding collect
collect_cases sha1 b r d P none_sent sent = elim (Option-cases r.info) [
  | inr (c, e) ↦ rw (e, collect) (sent c)
  | inl e ↦ elim (Option-cases r.fallback) [
    | inr (c, e') ↦ rw (e, e', collect) (sent c)
    | inl e' ↦ rw (e, e', collect) none_sent
  ]
]

pub collect-chosen :
    (sha1 : Text → Text) (b : Beats) (r : Reading) (d : Due) (c : Collected)
    → chosen r ≡ some c
    → collect sha1 b r d ≡ attach sha1 b r d c
unfolding collect
collect-chosen sha1 b r d c e = elim (Option-cases r.info) [
  | inr (x, i) ↦
      let p : x ≡ c = (let k : some x ≡ some c = (rw i at e) in cc) in rw (i, p, collect) refl
  | inl i ↦ let k : r.fallback ≡ some c = (rw i at e) in rw (i, k, collect) refl
]

module _ (sha1 : Text → Text) (t : ℕ) (r : Reading) (order : t ≤ r.after) where
  attach-message :
      (b : Beats) (d : Due) (c : Collected)
      → NotBefore t b.last_message_triggered_at
      → NotBefore t (attach sha1 b r d c).0.last_message_triggered_at
  unfolding attach
  attach-message b d c n = elim (Option-cases c.json) [
    | inl e ↦ rw e n
    | inr (text, e) ↦
        rw e (set-NotBefore t r.after b.last_message_triggered_at d.message order (inr n))
  ]

  attach-agents :
      (b : Beats) (d : Due) (c : Collected)
      → NotBefore t b.last_agents_triggered_at
      → NotBefore t (attach sha1 b r d c).0.last_agents_triggered_at
  unfolding attach
  attach-agents b d c n = elim (Option-cases c.json) [
    | inl e ↦ rw e n
    | inr (text, e) ↦
        rw e (set-NotBefore t r.after b.last_agents_triggered_at d.agents order (inr n))
  ]

  -- What a beat keeps, if a collection keeps it.
  beat_cases :
      (b : Beats) (P : Beats → Type 0)
      → P (counted b)
      → ((d : Due) → P (collect sha1 (counted b) r d).0)
      → P (beat sha1 b r).0
  unfolding beat
  beat_cases b P k h = elim (Bool-cases (should_collect (due (counted b) r))) [
    | inl y ↦ rw (y, beat) (h (due (counted b) r))
    | inr n ↦ rw (n, beat) k
  ]

  beat-message :
      (b : Beats)
      → NotBefore t b.last_message_triggered_at
      → NotBefore t (beat sha1 b r).0.last_message_triggered_at
  beat-message b n =
      beat_cases b (λ x. NotBefore t x.last_message_triggered_at) n
        (λ d.
          collect_cases sha1 (counted b) r d (λ x. NotBefore t x.last_message_triggered_at) n
            (λ c. attach-message (counted b) d c n))

  beat-agents :
      (b : Beats)
      → NotBefore t b.last_agents_triggered_at
      → NotBefore t (beat sha1 b r).0.last_agents_triggered_at
  beat-agents b n =
      beat_cases b (λ x. NotBefore t x.last_agents_triggered_at) n
        (λ d.
          collect_cases sha1 (counted b) r d (λ x. NotBefore t x.last_agents_triggered_at) n
            (λ c. attach-agents (counted b) d c n))

module _ (sha1 : Text → Text) (t : ℕ) where
  pub run-message :
      (rs : List Reading) (b : Beats)
      → All (λ q. t ≤ q.after) rs
      → NotBefore t b.last_message_triggered_at
      → NotBefore t (run_beats sha1 rs b).last_message_triggered_at
  unfolding run_beats
  run-message [] b h n = n
  run-message (r ∷ rs) b (h, hs) n =
      run-message rs (beat sha1 b r).0 hs (beat-message sha1 t r h b n)

  pub run-agents :
      (rs : List Reading) (b : Beats)
      → All (λ q. t ≤ q.after) rs
      → NotBefore t b.last_agents_triggered_at
      → NotBefore t (run_beats sha1 rs b).last_agents_triggered_at
  unfolding run_beats
  run-agents [] b h n = n
  run-agents (r ∷ rs) b (h, hs) n = run-agents rs (beat sha1 b r).0 hs (beat-agents sha1 t r h b n)
