-- ===== src/Agent/Metrics/Delivery.antt =====
-- How long the queue of metrics gets, and what becomes of a batch that is refused.
use monitor_agent.Base.{
  ℕ, ◌≤◌, ◌<◌, ◌≡◌, refl, ap, sym, ◌∙◌, arith, Bool, false, Option, none, some, List, [], ◌∷◌, ◌++◌,
  length, length-append, Bool-cases, inl, inr, if◌then◌else◌, Text,
}
use monitor_agent.Cache.{Cache, Entry, metrics}
use monitor_agent.Agent.Recovery.{push_all}
use monitor_agent.Agent.Metrics.{
  Batch, Metrics, Tick, idle, push_refused, upload_queue, should_upload, enqueue, collect, tick,
  run,
}

module _ {ℓ} {A : Type ℓ} (entry_size : Entry → ℕ) (encode : A → Option Text) (batch_size : ℕ)
    (first_cache : Option Cache) where
  -- The cache after the items of the refused batches have been pushed to the first one, in order; an
  -- item that `Push` refuses is gone.
  unfoldable pub pushed : List (Batch A) → Option Cache → Option Cache
  pushed [] c = c
  pushed (b ∷ bs) c = pushed bs (
      if b.accepted then c else elim c [
        | none ↦ none
        | some x ↦ some (push_all entry_size encode metrics b.clock 0 b.items x)
      ])

  refused_lem :
      (clock : ℕ → ℕ) (items : List A) (c : Option Cache)
      → push_refused entry_size encode batch_size clock items c ≡ elim c [
        | none ↦ none
        | some x ↦ some (push_all entry_size encode metrics clock 0 items x)
      ]
  unfolding push_refused
  refused_lem clock items none = refl
  refused_lem clock items (some x) = refl

  pushed-append :
      (bs cs : List (Batch A)) (c : Option Cache) → pushed (bs ++ cs) c ≡ pushed cs (pushed bs c)
  unfolding pushed
  pushed-append [] cs c = refl
  pushed-append (b ∷ bs) cs c = pushed-append bs cs _

  -- the queue is shorter than a batch, and empty before the first accepted upload; and the cache is what
  -- the pushes of the refused batches have made of it
  pub record IsSettled (s : Metrics A) : Type ℓ where
    pub short : length s.queue < batch_size
    pub first : (s.first_uploaded ≡ false) → s.queue ≡ []
    pub kept : s.cache ≡ pushed s.batches first_cache

  enqueue-IsSettled :
      (m : A) (accepts : Bool) (clock : ℕ → ℕ) (s : Metrics A)
      → 1 ≤ batch_size
      → IsSettled s
      → IsSettled (enqueue entry_size encode batch_size m accepts clock s)
  unfolding enqueue upload_queue pushed
  enqueue-IsSettled m accepts clock s h i =
      let queue = s.queue ++ m ∷ [] in
      elim (Bool-cases (should_upload entry_size encode batch_size queue s.first_uploaded)) [
        | inl y ↦ rw y (record {
          short = h;
          first = λ _. refl;
          kept =
              ap
                (λ (c : Option Cache).
                  if accepts then c else push_refused entry_size encode batch_size clock queue c)
                i.kept
              ∙ ap (λ (c : Option Cache). if accepts then pushed s.batches first_cache else c)
                  (refused_lem clock queue (pushed s.batches first_cache))
              ∙ sym (
                  pushed-append s.batches
                    (record { items = queue; accepted = accepts; clock = clock } ∷ []) first_cache);
        })
        | inr n ↦ rw n (record {
          short = ground (arith, length-append s.queue (m ∷ []));
          first = λ e. absurd (ground (arith, e, length-append s.queue (m ∷ [])));
          kept = i.kept;
        })
      ]

  collect-IsSettled :
      (o : Option A) (accepts : Bool) (clock : ℕ → ℕ) (s : Metrics A)
      → 1 ≤ batch_size
      → IsSettled s
      → IsSettled (collect entry_size encode batch_size o accepts clock s)
  unfolding collect
  collect-IsSettled none accepts clock s h i = i
  collect-IsSettled (some m) accepts clock s h i = enqueue-IsSettled m accepts clock s h i

  from_IsSettled :
      (ts : List (Tick A)) (s : Metrics A)
      → 1 ≤ batch_size
      → IsSettled s
      → IsSettled (run entry_size encode batch_size ts s)
  unfolding run tick
  from_IsSettled [] s h i = i
  from_IsSettled (t ∷ ts) s h i =
      from_IsSettled ts _ h (collect-IsSettled t.collected t.accepts t.clock s h i)

  -- After any ticks the queue is shorter than a batch and, while no upload has been accepted, empty; and
  -- the cache, if there is one, is what the calls of `Push` for the items of the refused batches, batch
  -- by batch and in order, leave of the first one, whichever of them fail. The batch size is at least 1.
  pub run-IsSettled :
      (ts : List (Tick A))
      → 1 ≤ batch_size
      → IsSettled
          (run entry_size encode batch_size ts (idle entry_size encode batch_size first_cache))
  unfolding pushed
  run-IsSettled ts h =
      from_IsSettled ts (idle entry_size encode batch_size first_cache) h
        (record { short = h; first = λ _. refl; kept = refl })
