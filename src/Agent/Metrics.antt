-- ===== src/Agent/Metrics.antt =====
-- The metrics loop of `runAgent` in cmd/agent/main.go: what it queues, what it hands over, and what it
-- pushes to the cache. What another goroutine does to the cache between two pushes is left out.
pub mod Delivery
pub mod Conserved
use monitor_agent.Base.{
  ℕ, ◌+◌, ◌≤◌, ◌<◌, ◌≡◌, refl, ap, sym, ◌∙◌, arith, Bool, true, false, not, ◌&&◌, ◌||◌, Option,
  none, some, List, [], ◌∷◌, ◌++◌, append-nil, append_assoc, length, leb, Bool-cases, inl, inr,
  if◌then◌else◌, Text,
}
use monitor_agent.Cache.{Cache, Entry, metrics}
use monitor_agent.Agent.Recovery.{push_all}

-- One call of `UploadMetrics`, and the clock of the calls of `Push` that follow it where it is refused.
pub record Batch {ℓ} (A : Type ℓ) : Type ℓ where
  pub items : List A
  pub accepted : Bool
  pub clock : ℕ → ℕ

-- `metricQueue`, `firstMetricsUploaded`, the calls made so far, and the cache, if there is one
pub record Metrics {ℓ} (A : Type ℓ) : Type ℓ where
  pub queue : List A
  pub first_uploaded : Bool
  pub batches : List (Batch A)
  pub cache : Option Cache

-- What one tick meets: the result of `Collect`, whether an upload would be accepted,
-- and the times of the pushes.
pub record Tick {ℓ} (A : Type ℓ) : Type ℓ where
  pub collected : Option A
  pub accepts : Bool
  pub clock : ℕ → ℕ

module _ {ℓ} {A : Type ℓ} (entry_size : Entry → ℕ) (encode : A → Option Text) (batch_size : ℕ) where
  abbrev pub idle : Option Cache → Metrics A
  idle cache = record { queue = []; first_uploaded = false; batches = []; cache = cache }

  -- the loop of `Push` calls after a refusal, if there is a cache; their errors are dropped
  unfoldable pub push_refused : (ℕ → ℕ) → List A → Option Cache → Option Cache
  push_refused clock items none = none
  push_refused clock items (some c) = some (push_all entry_size encode metrics clock 0 items c)

  -- the upload of the queue at a tick
  unfoldable pub upload_queue : Bool → (ℕ → ℕ) → List A → Metrics A → Metrics A
  unfolding push_refused
  upload_queue accepts clock queue s = record {
    queue = [];
    first_uploaded = s.first_uploaded || accepts;
    batches = s.batches ++ record { items = queue; accepted = accepts; clock = clock } ∷ [];
    cache = if accepts then s.cache else push_refused clock queue s.cache;
  }

  -- `shouldUpload`: the queue is full, or no upload has been accepted yet
  abbrev pub should_upload : List A → Bool → Bool
  should_upload queue first_uploaded =
      leb batch_size (length queue) || not first_uploaded && leb 1 (length queue)

  -- what is done with a new metric
  unfoldable pub enqueue : A → Bool → (ℕ → ℕ) → Metrics A → Metrics A
  enqueue m accepts clock s =
      let queue = s.queue ++ m ∷ [] in
      if should_upload queue s.first_uploaded
      then upload_queue accepts clock queue s
      else record s { queue = queue }

  -- the case `<-ticker.C`: without a metric, the `continue`
  unfoldable pub collect : Option A → Bool → (ℕ → ℕ) → Metrics A → Metrics A
  collect none accepts clock s = s
  collect (some m) accepts clock s = enqueue m accepts clock s

  unfoldable pub tick : Tick A → Metrics A → Metrics A
  unfolding collect
  tick t s = collect t.collected t.accepts t.clock s

  unfoldable pub run : List (Tick A) → Metrics A → Metrics A
  run [] s = s
  run (t ∷ ts) s = run ts (tick t s)

  -- the case `<-ctx.Done()`: the error is dropped, nothing is pushed, and the loop ends
  unfoldable pub stop : Bool → (ℕ → ℕ) → Metrics A → Metrics A
  stop accepts clock s =
      if leb 1 (length s.queue)
      then record s {
        batches = s.batches ++ record { items = s.queue; accepted = accepts; clock = clock } ∷ [];
      }
      else s
