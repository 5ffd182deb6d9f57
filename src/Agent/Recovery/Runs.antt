-- ===== src/Agent/Recovery/Runs.antt =====
-- A recovery as operations on the queues of the cache.
use monitor_agent.Base.{
  ℕ, ◌+◌, ◌≡◌, refl, ap, ◌∙◌, Bool, true, false, Option, none, some, List, [], ◌∷◌, Text, take,
  Option-cases, inl, inr, if◌then◌else◌,
}
use monitor_agent.Cache.{Cache, Entry, Kind, push}
use monitor_agent.Cache.Room.{Removes}
use monitor_agent.Cache.Refinement.{Queues, Op, put, take_out, Holds}
use monitor_agent.Cache.Refinement.Runs.{QueueRun, run_ops}
use monitor_agent.Cache.Clock.Runs.{IsReady, Timed, run_clock-QueueRun}
use monitor_agent.Agent.Recovery.{recovery_limit, decode_all, push_all, recover}
use monitor_agent.Agent.Recovery.Sent.{
  tried, recover_lem, recover-popped, resend-accepted, resend-refused,
}

module _ {ℓ} {A : Type ℓ} (entry_size : Entry → ℕ) (encode : A → Option Text) (kind : Kind) where
  -- The items that can be encoded, put back one after the other.
  unfoldable pub puts : (ℕ → ℕ) → ℕ → List A → List Op
  puts clock n [] = []
  puts clock n (a ∷ rest) = elim (encode a) [
    | none ↦ puts clock (n + 1) rest
    | some raw ↦ put kind (clock n) raw ∷ puts clock (n + 1) rest
  ]

  push_nothing : (now : ℕ) (c : Cache) → (push entry_size kind now none c).0 ≡ c
  unfolding push
  push_nothing now c = refl

  push_all-run_ops :
      (clock : ℕ → ℕ) (n : ℕ) (items : List A) (c : Cache)
      → push_all entry_size encode kind clock n items c
        ≡ (run_ops entry_size (puts clock n items) c).1
  unfolding push_all puts
  push_all-run_ops clock n [] c = refl
  push_all-run_ops clock n (a ∷ rest) c = elim (Option-cases (encode a)) [
    | inl e ↦ rw (e, push_nothing (clock n) c, puts) (push_all-run_ops clock (n + 1) rest c)
    | inr (raw, e) ↦
        rw (e, puts)
          (push_all-run_ops clock (n + 1) rest (push entry_size kind (clock n) (some raw) c).0)
  ]

  -- The first 100 bodies are taken; what can be decoded of them is put back unless it is accepted.
  abbrev pub recovery_ops : (Text → Option A) → (ℕ → ℕ) → Bool → Queues → List Op
  recovery_ops decode clock accepts q =
      take_out kind recovery_limit
      ∷ (if accepts then [] else puts clock 0 (decode_all decode (take recovery_limit (q kind))))

  recover-run_ops :
      (decode : Text → Option A) (clock : ℕ → ℕ) (accepts : Bool) (c : Cache) (q : Queues)
      → Holds c q
      → Removes c.disk
      → c.disk.list_ok ≡ true
      → (recover entry_size encode kind decode clock accepts c).cache
        ≡ (run_ops entry_size (recovery_ops decode clock accepts q) c).1
  recover-run_ops decode clock true c q h w ok =
      rw (recover-popped entry_size encode kind decode clock true c h.accounted w ok)
        (resend-accepted entry_size encode kind clock _ _)
  recover-run_ops decode clock false c q h w ok =
      rw
        (
          recover-popped entry_size encode kind decode clock false c h.accounted w ok,
          h.bodies_are kind,
        )
        (resend-refused entry_size encode kind clock _ _ ∙ push_all-run_ops clock 0 _ _)

  cache-QueueRun :
      (decode : Text → Option A) (clock : ℕ → ℕ) (accepts : Bool) (since : ℕ) (c : Cache)
      (q : Queues)
      → Holds c q
      → IsReady since c
      → Timed entry_size c.max_bytes since (recovery_ops decode clock accepts q)
      → (q' : Queues) × QueueRun q (run_ops entry_size (recovery_ops decode clock accepts q) c).0 q'
        × Holds (recover entry_size encode kind decode clock accepts c).cache q'
  cache-QueueRun decode clock accepts since c q h r t =
      rw (recover-run_ops decode clock accepts c q h r.works.removes r.works.list_ok)
        (run_clock-QueueRun entry_size (recovery_ops decode clock accepts q) since c q h r t)

  -- If the cache holds some queues, its directory works and its files carry earlier times, and the
  -- clock moves on with entries that are no longer than the bound, then the recovery of a kind uploads
  -- what can be decoded of the first 100 bodies of the kind, and is a run of the specification of the
  -- cache: those bodies are taken, and if the upload is refused, what could be decoded of them is put
  -- back in order. The cache holds the queues that the run ends in.
  pub recover-QueueRun :
      (decode : Text → Option A) (clock : ℕ → ℕ) (accepts : Bool) (since : ℕ) (c : Cache)
      (q : Queues)
      → Holds c q
      → IsReady since c
      → Timed entry_size c.max_bytes since (recovery_ops decode clock accepts q)
      → ((recover entry_size encode kind decode clock accepts c).upload
          ≡ tried entry_size encode kind accepts (decode_all decode (take recovery_limit (q kind))))
        × (q' : Queues) × QueueRun q
            (run_ops entry_size (recovery_ops decode clock accepts q) c).0
            q'
        × Holds (recover entry_size encode kind decode clock accepts c).cache q'
  recover-QueueRun decode clock accepts since c q h r t =
      let (uploaded, _, _) =
        recover_lem entry_size encode kind decode clock accepts c h.accounted r.works.removes
          r.works.list_ok in
      let (q', run, held) = cache-QueueRun decode clock accepts since c q h r t in
      (
        uploaded
            ∙ ap
                (λ (l : List Text).
                  tried entry_size encode kind accepts (decode_all decode (take recovery_limit l)))
                (h.bodies_are kind),
        q',
        run,
        held,
      )
