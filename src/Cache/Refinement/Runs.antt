-- ===== src/Cache/Refinement/Runs.antt =====
-- Runs of several operations on the cache.
use monitor_agent.Base.{ℕ, Bool, List, [], ◌∷◌}
use monitor_agent.Cache.{Cache, Entry}
use monitor_agent.Cache.Push.{IsHealthy}
use monitor_agent.Cache.Refinement.{
  Queues, Op, Answer, QueueStep, Holds, run_op, Admissible, fits_in, run_op-QueueStep,
}

-- what is seen of an operation: whether its entry fits, the operation, its answer
abbrev pub Seen : Type 0
Seen = Bool × Op × Answer

-- Steps of the specification, one for each of the operations seen.
pub data QueueRun : Queues → List Seen → Queues → Type 0 where
  stop : {q : Queues} → QueueRun q [] q
  next :
      {fits : Bool} {op : Op} {answer : Answer} {q q1 q2 : Queues} {seen : List Seen}
      → QueueStep fits q op answer q1
      → QueueRun q1 seen q2
      → QueueRun q ((fits, op, answer) ∷ seen) q2

module _ (entry_size : Entry → ℕ) where
  abbrev pub run_ops : List Op → Cache → List Seen × Cache
  run_ops [] c = ([], c)
  run_ops (op ∷ ops) c =
      let rest = run_ops ops (run_op entry_size op c).1 in
      ((fits_in entry_size op c, op, (run_op entry_size op c).0) ∷ rest.0, rest.1)

  -- Each operation finds a directory that works, and is admissible.
  abbrev pub AreAdmissible : List Op → Cache → Type 0
  AreAdmissible [] c = Unit
  AreAdmissible (op ∷ ops) c =
      IsHealthy c × Admissible entry_size op c × AreAdmissible ops (run_op entry_size op c).1

  -- A run of admissible operations on a cache that holds some queues is a run of the specification with
  -- the same answers, and the cache holds the queues that it ends in. A body is appended to its queue,
  -- the bodies taken are the first of theirs, and bodies are lost only by an entry that does not fit.
  pub run_ops-QueueRun :
      (ops : List Op) (c : Cache) (q : Queues)
      → Holds c q
      → AreAdmissible ops c
      → (q' : Queues) × QueueRun q (run_ops ops c).0 q' × Holds (run_ops ops c).1 q'
  run_ops-QueueRun [] c q h a = (q, stop, h)
  run_ops-QueueRun (op ∷ ops) c q h (k, m, ms) =
      let (q1, s, h1) = run_op-QueueStep entry_size op c q h k m in
      let (q2, r, h2) = run_ops-QueueRun ops (run_op entry_size op c).1 q1 h1 ms in
      (q2, next s r, h2)
