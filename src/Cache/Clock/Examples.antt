-- ===== src/Cache/Clock/Examples.antt =====
-- Runs of the cache from a first start, and a cache that holds one metric.
use monitor_agent.Base.{
  ℕ, arith, ◌≡◌, refl, true, false, some, [], ◌∷◌, lit, inr, text_ltb, text_eq, has_prefix,
  format_nat,
}
use monitor_agent.Base.Int.{pos, ◌+ℤ◌, ◌-ℤ◌}
use monitor_agent.Cache.{
  File, Cache, Kind, metrics, logs, new_file, push, pop_kind, make_room, store, drop_oldest, remove,
  write_file, save_index, pop_loop, taken, skipped, unlink,
}
use monitor_agent.Cache.Files.{weight, total}
use monitor_agent.Cache.Push.{file_name-not_index}
use monitor_agent.Cache.Bodies.{bodies, take_in, pass, taken_once}
use monitor_agent.Cache.Refinement.{Queues, put, Holds, Op, take_out, stored, given}
use monitor_agent.Cache.Refinement.Runs.{QueueRun, run_ops}
use monitor_agent.Cache.Clock.Runs.{Timed, IsReady, Works, run_clock-QueueRun}
use monitor_agent.Cache.Queue.{taken-new_file}
use monitor_agent.Cache.Clock.{dated}
use monitor_agent.Base.{List, false}
use monitor_agent.Cache.Examples.{two_files, entry_size}

-- The cache of a first start.
abbrev pub no_entries : Cache
no_entries = record two_files { files = []; written = pos 0 }

two_files-Works : Works two_files.disk
two_files-Works = record {
  list_ok = refl;
  write_ok = refl;
  index_ok = refl;
  removes = λ name. refl;
}

abbrev no_queues : Queues
no_queues kind = []

no_entries-Holds : Holds no_entries no_queues
unfolding bodies total
no_entries-Holds = record {
  accounted = record { distinct = tt; counted = refl };
  sorted = tt;
  bodies_are = λ kind. refl;
}

abbrev pub some_day : ℕ
some_day = 1_700_000_000_000_000_000

abbrev three_ops : List Op
three_ops =
    put metrics some_day (lit "b")
    ∷ put metrics 1_700_000_000_000_000_007 (lit "c")
    ∷ take_out metrics 5
    ∷ []

three_ops-Timed : Timed entry_size 100 some_day three_ops
three_ops-Timed = (
  omega arith,
  omega arith,
  omega arith,
  omega arith,
  (omega arith, omega arith, omega arith, omega arith, tt),
)

run_clock-QueueRun_example :
    (q' : Queues) × QueueRun no_queues (run_ops entry_size three_ops no_entries).0 q'
    × Holds (run_ops entry_size three_ops no_entries).1 q'
run_clock-QueueRun_example =
    run_clock-QueueRun entry_size three_ops some_day no_entries no_queues no_entries-Holds
      (record { works = two_files-Works; past = tt }) three_ops-Timed

abbrev put_and_take : List Op
put_and_take = put metrics 9 (lit "c") ∷ take_out metrics 5 ∷ []

-- The third entry costs one of the two bodies, and is taken out.
third_taken : (run_ops entry_size put_and_take two_files).0 ≡ (
    (false, put metrics 9 (lit "c"), stored)
    ∷ (true, take_out metrics 5, given (some (lit "c" ∷ [])))
    ∷ [])
unfolding push pop_kind pop_loop taken make_room store drop_oldest unlink remove write_file
    save_index total weight skipped text_eq text_ltb has_prefix lit format_nat ◌+ℤ◌ ◌-ℤ◌
third_taken = refl

-- One metric has been kept since then.
abbrev pub one_metric : Cache
one_metric = record two_files {
  files = new_file metrics some_day 60 (lit "b") ∷ [];
  written = pos 60;
}

abbrev stored_file : File
stored_file = new_file metrics some_day 60 (lit "b")

not_skipped : skipped stored_file ≡ false
unfolding skipped
not_skipped = file_name-not_index metrics some_day

abbrev pub one_queue : Queues
one_queue metrics = lit "b" ∷ []
one_queue logs = []

one_metric-bodies : (k : Kind) → bodies k one_metric.files ≡ one_queue k
unfolding bodies
one_metric-bodies metrics =
    take_in metrics stored_file [] (lit "b") not_skipped
      (taken-new_file metrics some_day 60 (lit "b"))
one_metric-bodies logs = pass logs stored_file [] (
    inr (
      taken_once metrics logs stored_file (lit "b") (λ e. absurd (cc))
        (taken-new_file metrics some_day 60 (lit "b"))))

pub one_metric-Holds : Holds one_metric one_queue
one_metric-Holds = record {
  accounted = record {
    distinct = (tt, tt);
    counted = (unfold total weight in rw not_skipped refl);
  };
  sorted = (tt, tt);
  bodies_are = one_metric-bodies;
}

pub one_metric-IsReady : IsReady 1_700_000_000_000_000_001 one_metric
one_metric-IsReady = record {
  works = two_files-Works;
  past = ((dated metrics some_day refl (omega arith) (omega arith), inr refl), tt);
}
