-- ===== src/Agent/Heartbeat/Cooldown.antt =====
-- How often a message or a change of the agents may trigger a collection.
use monitor_agent.Base.{
  ℕ, ◌+◌, ◌≤◌, ◌≡◌, refl, arith, inl, true, Option, none, some, List, All, Text,
}
use monitor_agent.Agent.Heartbeat.{
  Beats, Reading, due, cooled, should_collect, attach, beat, message_activity_cooldown,
  agents_change_cooldown,
}
use monitor_agent.Agent.Heartbeat.Recorded.{
  NotBefore, counted, run_beats, IsCollected, set-NotBefore, collect-chosen, run-message,
  run-agents,
}

cooled_elapsed :
    (cooldown now t : ℕ) (last : Option ℕ)
    → 1 ≤ cooldown
    → cooled cooldown now last ≡ true
    → last ≡ some t
    → t + cooldown ≤ now
unfolding cooled
cooled_elapsed cooldown now t none h c e = cc
cooled_elapsed cooldown now t (some u) h c e = ground arith

due-message :
    (b : Beats) (r : Reading)
    → (due b r).message ≡ true
    → cooled message_activity_cooldown r.now b.last_message_triggered_at ≡ true
unfolding due
due-message b r h = ground arith

due-agents :
    (b : Beats) (r : Reading)
    → (due b r).agents ≡ true
    → cooled agents_change_cooldown r.now b.last_agents_triggered_at ≡ true
unfolding due
due-agents b r h = ground arith

NotBefore-elapsed :
    (cooldown now t : ℕ) (last : Option ℕ)
    → 1 ≤ cooldown
    → cooled cooldown now last ≡ true
    → NotBefore t last
    → t + cooldown ≤ now
NotBefore-elapsed cooldown now t none h c n = elim n [ ]
NotBefore-elapsed cooldown now t (some u) h c n =
    let k = cooled_elapsed cooldown now u (some u) h c refl in omega (arith, k, n)

module _ (sha1 : Text → Text) (b : Beats) (r : Reading) where
  -- The times that a beat with data records.
  attached :
      IsCollected r
      → ((due (counted b) r).message ≡ true
          → NotBefore r.after (beat sha1 b r).0.last_message_triggered_at)
        × ((due (counted b) r).agents ≡ true
            → NotBefore r.after (beat sha1 b r).0.last_agents_triggered_at)
  unfolding beat attach
  attached k = (
    λ m.
        let e : should_collect (due (counted b) r) ≡ true = ground (arith, m) in
        rw
          (
            e,
            beat,
            collect-chosen sha1 (counted b) r (due (counted b) r) k.data_of k.is_chosen,
            k.is_text,
            attach,
          )
          (set-NotBefore r.after r.after b.last_message_triggered_at (due (counted b) r).message
            (omega arith) (inl m)),
    λ m.
        let e : should_collect (due (counted b) r) ≡ true = ground (arith, m) in
        rw
          (
            e,
            beat,
            collect-chosen sha1 (counted b) r (due (counted b) r) k.data_of k.is_chosen,
            k.is_text,
            attach,
          )
          (set-NotBefore r.after r.after b.last_agents_triggered_at (due (counted b) r).agents
            (omega arith) (inl m)),
  )

  -- If a heartbeat collects data that can be marshalled, and the clock does not go back behind its
  -- collection in the heartbeats that follow: where a message has triggered the collection, a message
  -- triggers the next one at least two minutes later, and where a change of the agents has, a change
  -- triggers the next one at least thirty seconds later.
  pub due-run_beats :
      (rs : List Reading) (later : Reading)
      → IsCollected r
      → All (λ q. r.after ≤ q.after) rs
      → ((due (counted b) r).message ≡ true
          → (due (counted (run_beats sha1 rs (beat sha1 b r).0)) later).message ≡ true
          → r.after + message_activity_cooldown ≤ later.now)
        × ((due (counted b) r).agents ≡ true
            → (due (counted (run_beats sha1 rs (beat sha1 b r).0)) later).agents ≡ true
            → r.after + agents_change_cooldown ≤ later.now)
  due-run_beats rs later k h =
      let last = run_beats sha1 rs (beat sha1 b r).0 in
      let (message, agents) = attached k in
      (
        λ m n.
            NotBefore-elapsed message_activity_cooldown later.now r.after
              last.last_message_triggered_at (omega arith) (due-message (counted last) later n)
              (run-message sha1 r.after rs (beat sha1 b r).0 h (message m)),
        λ m n.
            NotBefore-elapsed agents_change_cooldown later.now r.after last.last_agents_triggered_at
              (omega arith) (due-agents (counted last) later n)
              (run-agents sha1 r.after rs (beat sha1 b r).0 h (agents m)),
      )
