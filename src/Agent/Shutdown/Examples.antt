-- ===== src/Agent/Shutdown/Examples.antt =====
-- Agents without a cache, from their start to their end.
use mathlib.Core.List.{Perm}
use monitor_agent.Base.{◌≡◌, refl, true, false, [], ◌∷◌, ◌++◌}
use monitor_agent.Agent.Shutdown.{
  heartbeat, metrics, skills, logs, consumer, workers, Agent, serving, returned, is_cancelled,
  start, end, handles, dispatch, signal, close, wait, moves, panics, Reach, begin, later,
}
use monitor_agent.Agent.Shutdown.Exit.{Reach-Exit}
use monitor_agent.Agent.Shutdown.Returns.{Returns, Reach-Returns}

abbrev all_live : Agent
all_live = record {
  to_start = [];
  live = logs ∷ skills ∷ metrics ∷ heartbeat ∷ [];
  counter = 4;
  phase = serving;
  ended = [];
  panicked = [];
  handlers = 0;
}

all_live-Reach : Reach false false all_live
unfolding workers
all_live-Reach =
    later
      (later (later (later begin (moves (start refl))) (moves (start refl))) (moves (start refl)))
      (moves (start refl))

-- The heartbeats panic; the others return after the signal.
abbrev over : Agent
over = record {
  to_start = [];
  live = [];
  counter = 0;
  phase = returned;
  ended = skills ∷ metrics ∷ logs ∷ [];
  panicked = heartbeat ∷ [];
  handlers = 0;
}

over-Reach : Reach false false over
over-Reach =
    let one_panicked = later all_live-Reach (panics (logs ∷ skills ∷ metrics ∷ []) [] refl refl) in
    let stopping = later one_panicked (moves (signal refl refl)) in
    let no_logs =
      later stopping (moves (end [] (skills ∷ metrics ∷ []) refl (is_cancelled refl tt) refl)) in
    let after_close = later no_logs (moves (close refl)) in
    let no_metrics =
      later after_close (moves (end (skills ∷ []) [] refl (is_cancelled refl tt) refl)) in
    let all_gone = later no_metrics (moves (end [] [] refl (is_cancelled refl tt) refl)) in
    later all_gone (moves (wait refl refl))

Reach-Exit_example :
    Perm (workers false false) (over.ended ++ over.panicked) × (over.live ≡ []) × (over.counter ≡ 0)
Reach-Exit_example = Reach-Exit false false over over-Reach refl

Reach-Returns_example : Returns all_live
Reach-Returns_example = Reach-Returns all_live all_live-Reach

-- A command that came before the signal is still handled when `runAgent` has returned.
abbrev outlived : Agent
outlived = record {
  to_start = [];
  live = [];
  counter = 0;
  phase = returned;
  ended = heartbeat ∷ metrics ∷ skills ∷ logs ∷ consumer ∷ [];
  panicked = [];
  handlers = 1;
}

outlived-Reach : Reach false true outlived
unfolding workers
outlived-Reach =
    let one = later begin (moves (start refl)) in
    let three = later (later one (moves (start refl))) (moves (start refl)) in
    let five = later (later three (moves (start refl))) (moves (start refl)) in
    let busy =
      later five (moves (handles (dispatch [] (logs ∷ skills ∷ metrics ∷ heartbeat ∷ []) refl))) in
    let after_close = later (later busy (moves (signal refl refl))) (moves (close refl)) in
    let four = later after_close (
      moves (end [] (logs ∷ skills ∷ metrics ∷ heartbeat ∷ []) refl (is_cancelled refl tt) refl)) in
    let less =
      later four
        (moves (end [] (skills ∷ metrics ∷ heartbeat ∷ []) refl (is_cancelled refl tt) refl)) in
    let two =
      later less (moves (end [] (metrics ∷ heartbeat ∷ []) refl (is_cancelled refl tt) refl)) in
    let last = later two (moves (end [] (heartbeat ∷ []) refl (is_cancelled refl tt) refl)) in
    let all_gone = later last (moves (end [] [] refl (is_cancelled refl tt) refl)) in
    later all_gone (moves (wait refl refl))
