-- ===== src/Agent/Runtime/Examples.antt =====
-- A start on an empty machine.
use monitor_agent.Base.{◌≡◌, refl, true, some, inr, lit}
use monitor_agent.Config.{Config, apply_defaults, load, validate, text_or, default_server}
use monitor_agent.Config.Examples.{process, written}
use monitor_agent.Identity.{load_or_create}
use monitor_agent.Identity.Examples.{
  plain, plain-KeyLaws, empty_store, first_start, created, creates,
}
use monitor_agent.Agent.Runtime.{Stores, load_runtime}
use monitor_agent.Agent.Runtime.Again.{identity_given, load_runtime-load}

abbrev cfg : Config
cfg = apply_defaults process written

reads : load process true (some written) ≡ inr cfg
unfolding load validate default_server text_or lit apply_defaults
reads = refl

abbrev no_stores : Stores
no_stores dir = empty_store

first_load :
    (load_runtime plain process true (some written) first_start no_stores).0 ≡ inr (cfg, created)
first_load =
    rw
      (load_runtime-load plain plain-KeyLaws process true (some written) first_start no_stores cfg
        reads)
      (identity_given cfg (load_or_create plain first_start empty_store) no_stores created creates)
