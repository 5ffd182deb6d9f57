-- ===== src/Agent/Shutdown/Exit.antt =====
-- `runAgent` returns after the goroutines of its `WaitGroup`.
use mathlib.Core.List.{Perm, perm_middle}
use mathlib.Core.List.Perm
use monitor_agent.Base.{
  ℕ, suc, ◌≡◌, refl, sym, ap, ◌∙◌, Bool, List, [], ◌∷◌, ◌++◌, append-nil, arith, length,
  length-append, All,
}
use monitor_agent.Agent.Shutdown.{
  Worker, recovery, workers, Phase, serving, cancelled, closed, returned, Agent, fresh, MayEnd,
  has_recovered, is_cancelled, Move, start, end, handles, dispatch, handled, signal, close, wait,
  Step, moves, panics, Reach, begin, later,
}

-- The counter counts the goroutines that run; each goroutine is still to be started, running or
-- ended or panicked; all are started once the phase of serving is over, and until then only the recovery
-- has returned.
pub record Accounts (has_cache has_broker : Bool) (a : Agent) : Type 0 where
  pub counted : a.counter ≡ length a.live
  pub all_there :
      Perm (workers has_cache has_broker) (a.to_start ++ (a.live ++ (a.ended ++ a.panicked)))
  pub all_started : (a.phase ≡ serving → ⊥) → a.to_start ≡ []
  pub none_live : a.phase ≡ returned → a.live ≡ []
  pub serves : a.phase ≡ serving → All (λ w. w ≡ recovery) a.ended

nil_of_length : (l : List Worker) → length l ≡ 0 → l ≡ []
nil_of_length [] h = refl
nil_of_length (w ∷ ws) h = absurd (omega arith)

returns_early : (phase : Phase) (w : Worker) → phase ≡ serving → MayEnd phase w → w ≡ recovery
returns_early serving w h has_recovered = refl
returns_early serving w h (is_cancelled l c) = elim c [ ]
returns_early cancelled w h m = absurd (cc)
returns_early closed w h m = absurd (cc)
returns_early returned w h m = absurd (cc)

module _ (has_cache has_broker : Bool) where
  begin-Accounts : Accounts has_cache has_broker (fresh has_cache has_broker)
  begin-Accounts = record {
    counted = refl;
    all_there = rw (append-nil (workers has_cache has_broker)) (Perm.refl _);
    all_started = λ h. absurd (h refl);
    none_live = λ h. refl;
    serves = λ h. tt;
  }

  start-Accounts :
      {w : Worker} {rest : List Worker} (a : Agent)
      → Accounts has_cache has_broker a
      → a.to_start ≡ w ∷ rest
      → Accounts has_cache has_broker
          (record a { to_start = rest; live = w ∷ a.live; counter = suc a.counter })
  start-Accounts {w} {rest} a s e =
      let never : (a.phase ≡ serving → ⊥) → ⊥ = λ h. cc (s.all_started h, e) in
      record {
        counted = ap suc s.counted;
        all_there =
            Perm.trans (rw e at s.all_there)
              (Perm.symm (perm_middle rest (a.live ++ (a.ended ++ a.panicked))));
        all_started = λ h. absurd (never h);
        none_live = λ h. absurd (never (λ k. cc));
        serves = s.serves;
      }

  -- A goroutine that runs is among those that have ended, in `out`.
  left_live :
      {w : Worker} (before after : List Worker) (a : Agent) (out : List Worker)
      → Accounts has_cache has_broker a
      → a.live ≡ before ++ w ∷ after
      → Perm (w ∷ (a.ended ++ a.panicked)) out
      → Perm (workers has_cache has_broker) (a.to_start ++ ((before ++ after) ++ out))
  left_live {w} before after a out s e p =
      let over = a.ended ++ a.panicked in
      Perm.trans (rw (← e) s.all_there) (
        Perm.append_left a.to_start (
          Perm.trans (Perm.append_right over (perm_middle before after)) (
            Perm.trans (Perm.symm (perm_middle (before ++ after) over))
              (Perm.append_left (before ++ after) p))))

  one_less :
      {n : ℕ} (w : Worker) (before after : List Worker) (a : Agent)
      → Accounts has_cache has_broker a
      → a.live ≡ before ++ w ∷ after
      → a.counter ≡ suc n
      → (n ≡ length (before ++ after)) × (a.phase ≡ returned → ⊥)
  one_less {n} w before after a s e c =
      let k : length a.live ≡ length (before ++ w ∷ after) = ap length e in
      (
        omega (arith, length-append before (w ∷ after), length-append before after, s.counted),
        λ h. let z : length a.live ≡ 0 = ap length (s.none_live h) in omega (arith, s.counted),
      )

  end-Accounts :
      {w : Worker} {n : ℕ} (before after : List Worker) (a : Agent)
      → Accounts has_cache has_broker a
      → a.live ≡ before ++ w ∷ after
      → MayEnd a.phase w
      → a.counter ≡ suc n
      → Accounts has_cache has_broker
          (record a { live = before ++ after; counter = n; ended = w ∷ a.ended })
  end-Accounts {w} before after a s e m c =
      let (fewer, never) = one_less w before after a s e c in
      record {
        counted = fewer;
        all_there = left_live before after a (w ∷ (a.ended ++ a.panicked)) s e (Perm.refl _);
        all_started = s.all_started;
        none_live = λ h. absurd (never h);
        serves = λ h. (returns_early a.phase w h m, s.serves h);
      }

  panics-Accounts :
      {w : Worker} {n : ℕ} (before after : List Worker) (a : Agent)
      → Accounts has_cache has_broker a
      → a.live ≡ before ++ w ∷ after
      → a.counter ≡ suc n
      → Accounts has_cache has_broker
          (record a { live = before ++ after; counter = n; panicked = w ∷ a.panicked })
  panics-Accounts {w} before after a s e c =
      let (fewer, never) = one_less w before after a s e c in
      record {
        counted = fewer;
        all_there =
            left_live before after a (a.ended ++ w ∷ a.panicked) s e
              (Perm.symm (perm_middle a.ended a.panicked));
        all_started = s.all_started;
        none_live = λ h. absurd (never h);
        serves = s.serves;
      }

  Move-Accounts :
      {a b : Agent} → Accounts has_cache has_broker a → Move a b → Accounts has_cache has_broker b
  Move-Accounts {a} s (start e) = start-Accounts a s e
  Move-Accounts {a} s (end before after e m c) = end-Accounts before after a s e m c
  Move-Accounts {a} s (handles (dispatch before after e)) = record {
    counted = s.counted;
    all_there = s.all_there;
    all_started = s.all_started;
    none_live = s.none_live;
    serves = s.serves;
  }
  Move-Accounts {a} s (handles (handled p e)) = record {
    counted = s.counted;
    all_there = s.all_there;
    all_started = s.all_started;
    none_live = s.none_live;
    serves = s.serves;
  }
  Move-Accounts {a} s (signal e p) = record {
    counted = s.counted;
    all_there = s.all_there;
    all_started = λ h. e;
    none_live = λ h. absurd (cc);
    serves = λ h. absurd (cc);
  }
  Move-Accounts {a} s (close p) = record {
    counted = s.counted;
    all_there = s.all_there;
    all_started = λ h. s.all_started (λ k. cc);
    none_live = λ h. absurd (cc);
    serves = λ h. absurd (cc);
  }
  Move-Accounts {a} s (wait p z) = record {
    counted = s.counted;
    all_there = s.all_there;
    all_started = λ h. s.all_started (λ k. cc);
    none_live = λ h. nil_of_length a.live (sym s.counted ∙ z);
    serves = λ h. absurd (cc);
  }

  Step-Accounts :
      {a b : Agent} → Accounts has_cache has_broker a → Step a b → Accounts has_cache has_broker b
  Step-Accounts s (moves m) = Move-Accounts s m
  Step-Accounts {a} s (panics before after e c) = panics-Accounts before after a s e c

  -- In any interleaving, the counter of the `WaitGroup` is the number of goroutines that run, each
  -- goroutine is still to be started, running, ended or panicked, once a signal has come all are
  -- started, and until then only the recovery has returned.
  pub Reach-Accounts : {a : Agent} → Reach has_cache has_broker a → Accounts has_cache has_broker a
  Reach-Accounts begin = begin-Accounts
  Reach-Accounts (later r s) = Step-Accounts (Reach-Accounts r) s

  -- When `runAgent` returns, each goroutine of its `WaitGroup` has returned or panicked, once, and none
  -- of them runs. This says nothing of the goroutines that handle commands.
  pub Reach-Exit :
      (a : Agent)
      → Reach has_cache has_broker a
      → a.phase ≡ returned
      → Perm (workers has_cache has_broker) (a.ended ++ a.panicked)
        × (a.live ≡ [])
        × (a.counter ≡ 0)
  Reach-Exit a r p =
      let s = Reach-Accounts r in
      let none = s.none_live p in
      let started = s.all_started (λ k. cc) in
      (rw (none, started) at s.all_there, none, s.counted ∙ ap length none)
