-- ===== src/Agent/Metrics/Conserved.antt =====
-- No metric is lost on the way from the collector to a batch.
use monitor_agent.Base.{
  ℕ, ◌≡◌, refl, ap, sym, ◌∙◌, Bool, Option, none, some, List, [], ◌∷◌, ◌++◌, append-nil,
  append_assoc, Bool-cases, inl, inr, Text,
}
use monitor_agent.Cache.{Entry}
use monitor_agent.Agent.Metrics.{
  Batch, Metrics, Tick, upload_queue, should_upload, enqueue, collect, tick, run,
}

module _ {ℓ} {A : Type ℓ} where
  abbrev pub optional : Option A → List A
  optional none = []
  optional (some m) = m ∷ []

  -- the metrics that were collected, in order
  unfoldable pub gathered : List (Tick A) → List A
  gathered [] = []
  gathered (t ∷ ts) = optional t.collected ++ gathered ts

  -- the metrics of all batches, in order
  unfoldable pub handed : List (Batch A) → List A
  handed [] = []
  handed (b ∷ bs) = b.items ++ handed bs

  handed-append : (bs cs : List (Batch A)) → handed (bs ++ cs) ≡ handed bs ++ handed cs
  unfolding handed
  handed-append [] cs = refl
  handed-append (b ∷ bs) cs =
      ap (λ l. b.items ++ l) (handed-append bs cs)
      ∙ sym (append_assoc b.items (handed bs) (handed cs))

  handed-snoc : (bs : List (Batch A)) (b : Batch A) → handed (bs ++ b ∷ []) ≡ handed bs ++ b.items
  unfolding handed
  handed-snoc bs b = rw (handed-append bs (b ∷ []), append-nil b.items)

  -- what has been handed over, then what is queued
  unfoldable pub flow : Metrics A → List A
  unfolding handed
  flow s = handed s.batches ++ s.queue

  module _ (entry_size : Entry → ℕ) (encode : A → Option Text) (batch_size : ℕ) where
    flow-upload_queue :
        (accepts : Bool) (clock : ℕ → ℕ) (queue : List A) (s : Metrics A)
        → flow (upload_queue entry_size encode batch_size accepts clock queue s)
          ≡ handed s.batches ++ queue
    unfolding flow upload_queue
    flow-upload_queue accepts clock queue s =
        rw (handed-snoc s.batches _, append-nil (handed s.batches ++ queue)) refl

    flow-enqueue :
        (m : A) (accepts : Bool) (clock : ℕ → ℕ) (s : Metrics A)
        → flow (enqueue entry_size encode batch_size m accepts clock s) ≡ flow s ++ m ∷ []
    unfolding enqueue flow handed
    flow-enqueue m accepts clock s =
        elim (Bool-cases
          (should_upload entry_size encode batch_size (s.queue ++ m ∷ []) s.first_uploaded)) [
            | inl y ↦
                rw
                  (
                    y,
                    flow-upload_queue accepts clock (s.queue ++ m ∷ []) s,
                    flow,
                    append_assoc (handed s.batches) s.queue (m ∷ []),
                  )
                  refl
            | inr n ↦ rw (n, flow, append_assoc (handed s.batches) s.queue (m ∷ [])) refl
          ]

    flow-collect :
        (o : Option A) (accepts : Bool) (clock : ℕ → ℕ) (s : Metrics A)
        → flow (collect entry_size encode batch_size o accepts clock s) ≡ flow s ++ optional o
    unfolding collect
    flow-collect none accepts clock s = sym (append-nil (flow s))
    flow-collect (some m) accepts clock s = flow-enqueue m accepts clock s

    -- Every metric that a tick collected is, once and in order, in a batch that was handed over or in
    -- the queue.
    pub run-handed :
        (ts : List (Tick A)) (s : Metrics A)
        → flow (run entry_size encode batch_size ts s) ≡ flow s ++ gathered ts
    unfolding run tick gathered
    run-handed [] s = sym (append-nil (flow s))
    run-handed (t ∷ ts) s =
        rw
          (
            run-handed ts (tick entry_size encode batch_size t s),
            flow-collect t.collected t.accepts t.clock s,
          )
          (append_assoc (flow s) (optional t.collected) (gathered ts))
