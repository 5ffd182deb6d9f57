-- ===== src/Cache/Clock/Runs.antt =====
-- Runs of the cache under a clock that moves on.
use monitor_agent.Base.{
  ℕ, ◌+◌, ◌≤◌, ◌<◌, ◌≡◌, ◌≢◌, Text, true, refl, arith, List, [], ◌∷◌, All, inl, inr,
}
use monitor_agent.Cache.{File, Disk, Cache, Kind, Entry, file_name}
use monitor_agent.Cache.Room.{IsAccounted, Removes}
use monitor_agent.Cache.Push.{IsHealthy, IsReadable, entry_of}
use monitor_agent.Cache.Refinement.{
  Queues, Op, put, take_out, Holds, run_op, Admissible, run_op-QueueStep,
}
use monitor_agent.Cache.Refinement.Runs.{QueueRun, stop, next, run_ops}
use monitor_agent.Cache.Queue.{Earlier}
use monitor_agent.Cache.Clock.{Old, dated, first_time, end_time, Old-Unused, Old-Earlier, Old-later}
use monitor_agent.Cache.Clock.Kept.{IsKept, push-IsKept, pop_kind-IsKept}

-- A file that is old and can be listed.
abbrev pub IsPast : ℕ → File → Type 0
IsPast now f = Old now f × IsReadable f

All-later : (P Q : File → Type 0) (fs : List File) → ((f : File) → P f → Q f) → All P fs → All Q fs
All-later P Q [] w h = tt
All-later P Q (f ∷ fs) w (h, hs) = (w f h, All-later P Q fs w hs)

-- Every call on the directory succeeds.
pub record Works (disk : Disk) : Type 0 where
  pub list_ok : disk.list_ok ≡ true
  pub write_ok : disk.write_ok ≡ true
  pub index_ok : disk.index_ok ≡ true
  pub removes : Removes disk

-- The cache works, and its files are of the time before `now`.
pub record IsReady (now : ℕ) (c : Cache) : Type 0 where
  pub works : Works c.disk
  pub past : All (IsPast now) c.files

works-IsHealthy : (now : ℕ) (c : Cache) → IsReady now c → IsHealthy c
works-IsHealthy now c r = record {
  list_ok = r.works.list_ok;
  write_ok = r.works.write_ok;
  index_ok = r.works.index_ok;
  removes = r.works.removes;
  readable = All-later (IsPast now) IsReadable c.files (λ f h. h.1) r.past;
}

Kept-IsReady :
    (now : ℕ) (since : ℕ) (c c' : Cache)
    → IsReady since c
    → IsKept (IsPast now) c c'
    → IsReady now c'
Kept-IsReady now since c c' r k = record { works = rw k.disk r.works; past = k.files }

module _ (entry_size : Entry → ℕ) where
  -- The clock of the operations moves on from `since`, in the time when nanoseconds have 19 digits, and
  -- no entry is longer than the bound.
  abbrev pub Timed : ℕ → ℕ → List Op → Type 0
  Timed bound since [] = Unit
  Timed bound since (put kind now raw ∷ ops) =
      (since ≤ now)
      × (first_time ≤ now)
      × (now < end_time)
      × (entry_size (entry_of kind now raw) ≤ bound)
      × Timed bound (now + 1) ops
  Timed bound since (take_out kind limit ∷ ops) = Timed bound since ops

  now-Admissible :
      (kind : Kind) (now since : ℕ) (c : Cache)
      → IsReady since c
      → since ≤ now
      → now < end_time
      → All (λ f. (f.name ≢ file_name kind now) × Earlier kind (file_name kind now) f) c.files
  now-Admissible kind now since c r s u =
      All-later (IsPast since) _ c.files
        (λ f h.
          let o = Old-later since now f s h.0 in
          (Old-Unused kind now f u o, Old-Earlier kind now f u o))
        r.past

  put-Admissible :
      (kind : Kind) (now since : ℕ) (raw : Text) (c : Cache)
      → IsReady since c
      → since ≤ now
      → now < end_time
      → entry_size (entry_of kind now raw) ≤ c.max_bytes
      → Admissible entry_size (put kind now raw) c
  put-Admissible kind now since raw c r s u fits =
      let all = now-Admissible kind now since c r s u in
      (
        fits,
        All-later _ (λ f. f.name ≢ file_name kind now) c.files (λ f h. h.0) all,
        All-later _ (Earlier kind (file_name kind now)) c.files (λ f h. h.1) all,
      )

  put-IsKept :
      (kind : Kind) (now since : ℕ) (raw : Text) (c : Cache)
      → IsAccounted c
      → IsReady since c
      → since ≤ now
      → first_time ≤ now
      → IsKept (IsPast (now + 1)) c (run_op entry_size (put kind now raw) c).1
  put-IsKept kind now since raw c a r s l =
      push-IsKept (IsPast (now + 1)) entry_size kind now raw c a r.works.removes
        (inl r.works.write_ok) (dated kind now refl l (omega arith), inr refl)
        (All-later (IsPast since) (IsPast (now + 1)) c.files
          (λ f h. (Old-later since (now + 1) f (omega arith) h.0, h.1)) r.past)

  -- If the cache holds some queues, its directory works and its files carry earlier times, and the
  -- clock of the operations moves on with entries that are no longer than the bound, then the run is
  -- a run of the specification with the same answers, and the cache holds the queues that it ends
  -- in. A body is appended to its queue, the bodies taken are the first of theirs, and bodies are
  -- lost only by an entry that does not fit.
  pub run_clock-QueueRun :
      (ops : List Op) (since : ℕ) (c : Cache) (q : Queues)
      → Holds c q
      → IsReady since c
      → Timed c.max_bytes since ops
      → (q' : Queues) × QueueRun q (run_ops entry_size ops c).0 q'
        × Holds (run_ops entry_size ops c).1 q'
  run_clock-QueueRun [] since c q h r t = (q, stop, h)
  run_clock-QueueRun (put kind now raw ∷ ops) since c q h r (s, l, u, fits, t) =
      let (q1, st, h1) =
        run_op-QueueStep entry_size (put kind now raw) c q h (works-IsHealthy since c r)
          (put-Admissible kind now since raw c r s u fits) in
      let k = put-IsKept kind now since raw c h.accounted r s l in
      let (q2, run, h2) =
        run_clock-QueueRun ops (now + 1) (run_op entry_size (put kind now raw) c).1 q1 h1
          (Kept-IsReady (now + 1) since c _ r k) (rw k.max_bytes t) in
      (q2, next st run, h2)
  run_clock-QueueRun (take_out kind limit ∷ ops) since c q h r t =
      let w = works-IsHealthy since c r in
      let (q1, st, h1) = run_op-QueueStep entry_size (take_out kind limit) c q h w tt in
      let k = pop_kind-IsKept (IsPast since) kind limit c w.list_ok r.past in
      let (q2, run, h2) =
        run_clock-QueueRun ops since (run_op entry_size (take_out kind limit) c).1 q1 h1
          (Kept-IsReady since since c _ r k) (rw k.max_bytes t) in
      (q2, next st run, h2)
