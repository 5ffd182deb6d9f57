-- ===== src/Agent/Shutdown.antt =====
-- `runAgent` of cmd/agent/main.go: the goroutines that it starts, the signal that cancels their
-- context, and the `sync.WaitGroup` that it waits for, as steps that interleave in any order. Every
-- such goroutine defers `wg.Done` and recovers from a panic; the loops return where their context is
-- cancelled, the recovery of the cache by itself. `Run` of a broker (internal/transport) starts one more
-- goroutine for each command; the `WaitGroup` does not count these.
pub mod Exit
pub mod Returns
mod Examples
use monitor_agent.Base.{ℕ, suc, ◌≡◌, Bool, true, false, List, [], ◌∷◌, ◌++◌, if◌then◌else◌}

pub data Worker : Type 0 where
  recovery heartbeat metrics skills logs consumer : Worker

-- the goroutines of the `WaitGroup`, in the order of their start
unfoldable pub workers : Bool → Bool → List Worker
workers has_cache has_broker =
    (if has_cache then recovery ∷ [] else [])
    ++ (heartbeat ∷ metrics ∷ skills ∷ logs ∷ (if has_broker then consumer ∷ [] else []))

pub data Phase : Type 0 where
  -- before the signal; after `cancel`; after `Close` of the broker; after `wg.Wait`
  serving cancelled closed returned : Phase

pub record Agent : Type 0 where
  -- goroutines that are not started yet
  pub to_start : List Worker
  -- goroutines that have not called `wg.Done`
  pub live : List Worker
  -- the counter of the `WaitGroup`
  pub counter : ℕ
  pub phase : Phase
  -- the goroutines that have returned, and those that have panicked, the last one first
  pub ended : List Worker
  pub panicked : List Worker
  -- the commands that are handled: the goroutines of `go handler(ctx, cmd)` that run
  pub handlers : ℕ

abbrev pub fresh : Bool → Bool → Agent
fresh has_cache has_broker = record {
  to_start = workers has_cache has_broker;
  live = [];
  counter = 0;
  phase = serving;
  ended = [];
  panicked = [];
  handlers = 0;
}

-- `ctx.Done()` is closed.
abbrev pub IsCancelled : Phase → Type 0
IsCancelled serving = ⊥
IsCancelled cancelled = Unit
IsCancelled closed = Unit
IsCancelled returned = Unit

-- whether the goroutine is a loop that tests its context
abbrev pub loops : Worker → Bool
loops recovery = false
loops heartbeat = true
loops metrics = true
loops skills = true
loops logs = true
loops consumer = true

-- Why a goroutine may return.
pub data MayEnd (phase : Phase) : Worker → Type 0 where
  has_recovered : MayEnd phase recovery
  is_cancelled : {w : Worker} → loops w ≡ true → IsCancelled phase → MayEnd phase w

-- `Run` of the broker, and the end of what it has started.
pub data Handling (a : Agent) : Agent → Type 0 where
  -- a command comes to the consumer, also after the cancel as long as it has not returned
  dispatch :
      (before after : List Worker)
      → a.live ≡ before ++ consumer ∷ after
      → Handling a (record a { handlers = suc a.handlers })
  handled :
      {n : ℕ}
      → (a.phase ≡ returned → ⊥)
      → a.handlers ≡ suc n
      → Handling a (record a { handlers = n })

-- The steps of an agent in which no goroutine panics.
pub data Move (a : Agent) : Agent → Type 0 where
  start :
      {w : Worker} {rest : List Worker}
      → a.to_start ≡ w ∷ rest
      → Move a (record a { to_start = rest; live = w ∷ a.live; counter = suc a.counter })
  end :
      {w : Worker} (before after : List Worker) {n : ℕ}
      → a.live ≡ before ++ w ∷ after
      → MayEnd a.phase w
      → a.counter ≡ suc n
      → Move a (record a { live = before ++ after; counter = n; ended = w ∷ a.ended })
  handles : {b : Agent} → Handling a b → Move a b
  signal : a.to_start ≡ [] → a.phase ≡ serving → Move a (record a { phase = cancelled })
  close : a.phase ≡ cancelled → Move a (record a { phase = closed })
  wait : a.phase ≡ closed → a.counter ≡ 0 → Move a (record a { phase = returned })

pub data Step (a : Agent) : Agent → Type 0 where
  moves : {b : Agent} → Move a b → Step a b
  -- a goroutine panics and recovers
  panics :
      {w : Worker} (before after : List Worker) {n : ℕ}
      → a.live ≡ before ++ w ∷ after
      → a.counter ≡ suc n
      → Step a (record a { live = before ++ after; counter = n; panicked = w ∷ a.panicked })

pub data Reach (has_cache has_broker : Bool) : Agent → Type 0 where
  begin : Reach has_cache has_broker (fresh has_cache has_broker)
  later : {a b : Agent} → Reach has_cache has_broker a → Step a b → Reach has_cache has_broker b
