-- ===== src/Client/Retry.antt =====
-- The retries of `Post`: how many requests are sent, what is returned, and how long it sleeps.
use Prim.Native.Nat.{min}
use monitor_agent.Base.{
  ℕ, zero, suc, ◌+◌, ◌-◌, ◌*◌, ◌≤◌, ◌<◌, ◌≡◌, refl, ◌⊎◌, inl, inr, false, Option, none, some, List,
  [], ◌∷◌, length, arith, Bool-cases, ◌==◌,
}
use monitor_agent.Client.{
  Failure, RetryConfig, Outcome, ok, fail, Posted, rounds, post, attempts_of, interval_of,
  max_interval_of, next_interval,
}

-- The sleeps before the retries: each is `min mx (interval * 2 ^ k)` for its place k.
abbrev pub IsBackoff : ℕ → ℕ → List ℕ → Type 0
IsBackoff interval mx [] = Unit
IsBackoff interval mx (s ∷ ss) = (s ≡ min mx interval) × IsBackoff (interval * 2) mx ss

module _ {ℓ} {A : Type ℓ} (once : ℕ → Outcome A) where
  abbrev pub Fails : ℕ → Type ℓ
  Fails i = (e : Failure) × (once i ≡ fail e)

  -- How the last request ended, and what is returned for it.
  abbrev pub Ended : ℕ → ℕ → Posted A → Type ℓ
  Ended last limit p =
      ((p.result ≡ none) × (once last ≡ ok p.received))
      ⊎ ((e : Failure) × (p.result ≡ some e) × (once last ≡ fail e) × (suc last ≡ limit))

  -- Requests `attempt` to `last` were made, all but the last failed, and between two of them the
  -- client slept.
  pub record Tried (attempt limit interval mx : ℕ) (p : Posted A) : Type ℓ where
    pub last : ℕ
    pub sent : p.sent ≡ suc last
    pub from : attempt ≤ last
    pub within : last < limit
    pub earlier : (i : ℕ) → attempt ≤ i → i < last → Fails i
    pub ended : Ended last limit p
    pub slept : length p.sleeps + attempt ≡ last
    pub backoff : IsBackoff interval mx p.sleeps

  Outcome-cases : (o : Outcome A) → ((v : Option A) × (o ≡ ok v)) ⊎ ((e : Failure) × (o ≡ fail e))
  Outcome-cases (ok v) = inl (v, refl)
  Outcome-cases (fail e) = inr (e, refl)

  -- one more request in front of those that were tried
  Tried-cons :
      (attempt limit w mx : ℕ) (p : Posted A)
      → Fails attempt
      → Tried (attempt + 1) limit (w * 2) mx p
      → Tried attempt limit w mx (record p { sleeps = min mx w ∷ p.sleeps })
  Tried-cons attempt limit w mx p bad t = record {
    last = t.last;
    sent = t.sent;
    from = omega (arith, t.from);
    within = t.within;
    earlier = λ i lo hi. elim (Bool-cases (i == attempt)) [
      | inl same ↦ let e : i ≡ attempt = ground arith in rw e bad
      | inr other ↦ t.earlier i (ground arith) hi
    ];
    ended = t.ended;
    slept = omega (arith, t.slept);
    backoff = (refl, t.backoff);
  }

  next_min : (interval w mx : ℕ) → interval ≡ min mx w → next_interval interval mx ≡ min mx (w * 2)
  unfolding next_interval
  next_min interval w mx h = ground arith

  -- the round that succeeds
  succeeding :
      (left attempt w interval mx : ℕ) (last : Option Failure) (v : Option A)
      → once attempt ≡ ok v
      → Tried attempt (attempt + suc left) w mx (rounds once (suc left) attempt interval mx last)
  unfolding rounds
  succeeding left attempt w interval mx last v e =
      rw (e, rounds)
        (record {
          last = attempt;
          sent = omega arith;
          from = omega arith;
          within = omega arith;
          earlier = λ i lo hi. absurd (omega arith);
          ended = inl (refl, e);
          slept = omega arith;
          backoff = tt;
        })

  -- the last round, if it fails
  giving_up :
      (attempt w interval mx : ℕ) (last : Option Failure) (e : Failure)
      → once attempt ≡ fail e
      → Tried attempt (attempt + 1) w mx (rounds once 1 attempt interval mx last)
  unfolding rounds
  giving_up attempt w interval mx last e bad =
      rw (bad, rounds)
        (record {
          last = attempt;
          sent = omega arith;
          from = omega arith;
          within = omega arith;
          earlier = λ i lo hi. absurd (omega arith);
          ended = inr (e, refl, bad, omega arith);
          slept = omega arith;
          backoff = tt;
        })

  -- a round that fails and is not the last
  retrying :
      (left attempt interval mx : ℕ) (last : Option Failure) (e : Failure)
      → once attempt ≡ fail e
      → rounds once (suc (suc left)) attempt interval mx last ≡ (
          let rest = rounds once (suc left) (attempt + 1) (next_interval interval mx) mx (some e) in
          record rest { sleeps = interval ∷ rest.sleeps })
  unfolding rounds
  retrying left attempt interval mx last e bad =
      let z : (suc left == 0) ≡ false = ground arith in rw (bad, rounds, z)

  rounds-Tried :
      (left attempt w interval mx : ℕ) (last : Option Failure)
      → interval ≡ min mx w
      → Tried attempt (attempt + suc left) w mx (rounds once (suc left) attempt interval mx last)
  rounds-Tried zero attempt w interval mx last h = elim (Outcome-cases (once attempt)) [
    | inl (v, e) ↦ succeeding zero attempt w interval mx last v e
    | inr (e, bad) ↦ giving_up attempt w interval mx last e bad
  ]
  rounds-Tried (suc left) attempt w interval mx last h = elim (Outcome-cases (once attempt)) [
    | inl (v, e) ↦ succeeding (suc left) attempt w interval mx last v e
    | inr (e, bad) ↦
        let n : attempt + 1 + suc left ≡ attempt + suc (suc left) = omega arith in
        let t =
          rounds-Tried left (attempt + 1) (w * 2) (next_interval interval mx) mx (some e)
            (next_min interval w mx h) in
        rw (retrying left attempt interval mx last e bad, h)
          (Tried-cons attempt (attempt + suc (suc left)) w mx _ (e, bad) (rw (n, h) at t))
  ]

  attempts_pos : (r : RetryConfig) → (n : ℕ) × (attempts_of r ≡ suc n)
  unfolding attempts_of
  attempts_pos r = (attempts_of r - 1, ground arith)

  -- If the first interval is within the greatest one, `Post` sends requests until one succeeds or
  -- the attempts are used up; it returns what the last one gave, and sleeps between two requests,
  -- the first interval doubled each time up to the greatest one.
  pub post-Tried :
      (r : RetryConfig)
      → interval_of r ≤ max_interval_of r
      → Tried 0 (attempts_of r) (interval_of r) (max_interval_of r) (post once r)
  unfolding post
  post-Tried r h =
      let (n, e) = attempts_pos r in
      let m : 0 + suc n ≡ suc n = omega arith in
      rw e (
        rw m at
          (rounds-Tried n 0 (interval_of r) (interval_of r) (max_interval_of r) none (omega arith)))
