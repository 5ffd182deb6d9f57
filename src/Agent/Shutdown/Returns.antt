-- ===== src/Agent/Shutdown/Returns.antt =====
-- `runAgent` can return from wherever it is.
use monitor_agent.Base.{suc, ◌≡◌, refl, ap, Bool, List, [], ◌∷◌, length}
use monitor_agent.Agent.Shutdown.{
  Worker, recovery, heartbeat, metrics, skills, logs, consumer, Phase, serving, cancelled, closed,
  returned, Agent, IsCancelled, MayEnd, has_recovered, is_cancelled, Move, start, end, signal,
  close, wait, Reach,
}
use monitor_agent.Agent.Shutdown.Exit.{Reach-Accounts}

-- Steps without a panic, one after the other.
pub data Steps : Agent → Agent → Type 0 where
  still : {a : Agent} → Steps a a
  then_step : {a b c : Agent} → Move a b → Steps b c → Steps a c

-- Steps after which `runAgent` has returned.
abbrev pub Returns : Agent → Type 0
Returns a = (b : Agent) × Steps a b × (b.phase ≡ returned)

after_step : {a b : Agent} → Move a b → Returns b → Returns a
after_step s (c, t, e) = (c, then_step s t, e)

may_end : (phase : Phase) (w : Worker) → IsCancelled phase → MayEnd phase w
may_end phase recovery c = has_recovered
may_end phase heartbeat c = is_cancelled refl c
may_end phase metrics c = is_cancelled refl c
may_end phase skills c = is_cancelled refl c
may_end phase logs c = is_cancelled refl c
may_end phase consumer c = is_cancelled refl c

after_close :
    (l : List Worker) (a : Agent) → a.live ≡ l → a.counter ≡ length l → a.phase ≡ closed → Returns a
after_close [] a e c p = after_step (wait p c) (_, still, refl)
after_close (w ∷ l) a e c p =
    after_step (end [] l e (may_end a.phase w (rw p tt)) c)
      (after_close l (record a { live = l; counter = length l; ended = w ∷ a.ended }) refl refl p)

after_signal : (a : Agent) → a.counter ≡ length a.live → a.phase ≡ cancelled → Returns a
after_signal a c p =
    after_step (close p) (after_close a.live (record a { phase = closed }) refl c refl)

from_serving :
    (l : List Worker) (a : Agent)
    → a.to_start ≡ l
    → a.counter ≡ length a.live
    → a.phase ≡ serving
    → Returns a
from_serving [] a e c p =
    after_step (signal e p) (after_signal (record a { phase = cancelled }) c refl)
from_serving (w ∷ l) a e c p = after_step (start e) (
    from_serving l (record a { to_start = l; live = w ∷ a.live; counter = suc a.counter }) refl
      (ap suc c) p)

from_phase : (q : Phase) (a : Agent) → a.counter ≡ length a.live → a.phase ≡ q → Returns a
from_phase serving a c p = from_serving a.to_start a refl c p
from_phase cancelled a c p = after_signal a c p
from_phase closed a c p = after_close a.live a refl c p
from_phase returned a c p = (a, still, p)

-- From every state that the agent can reach, steps without a panic lead to the return of `runAgent`:
-- the start of the other goroutines, the signal, the cancel that ends the loops, the close and the wait
-- never block each other.
pub Reach-Returns :
    {has_cache has_broker : Bool} (a : Agent) → Reach has_cache has_broker a → Returns a
Reach-Returns {has_cache} {has_broker} a r =
    from_phase a.phase a (Reach-Accounts has_cache has_broker r).counted refl
