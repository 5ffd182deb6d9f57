-- ===== src/Config/Examples.antt =====
-- The configuration of a process whose home is /home/a.
use monitor_agent.Base.{
  ◌≡◌, ◌≢◌, refl, true, false, some, inl, inr, List, [], ◌∷◌, ◌++◌, Text, lit, empty, is_empty,
  has_prefix,
}
use monitor_agent.Base.Int.{pos}
use monitor_agent.Config.{Config, Process, home_of, text_or, load, invalid}
use monitor_agent.Config.Ranges.{InRange, load-InRange}
use monitor_agent.Config.Stable.{JoinLaws}

abbrev slashed : List Text → Text
slashed [] = empty
slashed (q ∷ qs) = lit "/" ++ q ++ slashed qs

-- `filepath.Join` of paths that need no cleaning
abbrev pub joined : List Text → Text
joined [] = empty
joined ([] ∷ ps) = joined ps
joined ((c ∷ p) ∷ ps) = c ∷ p ++ slashed ps

joined-filled :
    (a : Text) (rest : List Text) → is_empty a ≡ false → is_empty (joined (a ∷ rest)) ≡ false
joined-filled [] rest h = cc
joined-filled (c ∷ a) rest h = refl

abbrev pub process : Process
process = record {
  user_home = lit "/home/a";
  skills_paths = lit "~/skills, /opt/skills";
  path_join = joined;
}

process-JoinLaws : JoinLaws process
process-JoinLaws = record {
  filled = joined-filled;
  expanded = λ path. (unfold home_of text_or lit has_prefix in refl);
}

abbrev pub written : Config
written = record {
  server = record { url = empty; timeout = pos 0 };
  device = record { id_file = empty; api_key_file = lit "~/key"; data_dir = empty };
  transport = record {
    type = lit "redis";
    mqtt = record {
      broker = empty;
      keep_alive = pos 0;
      clean_session = false;
      auto_reconnect = false;
      reconnect_interval = pos 0;
      username = empty;
      password = empty;
      use_tls = false;
    };
  };
  redis = record { addr = empty; password = empty; db = pos 0 };
  intervals = record { heartbeat = pos 5; metrics = pos 0; skills = pos 0; log_upload = pos 0 };
  metrics_batch_size = pos 500;
  scan_paths = [];
  logs = record {
    level = empty;
    file = empty;
    max_size = pos 0;
    max_backups = pos 0;
    batch_size = pos 5000;
  };
  cache = record { dir = empty; max_size_mb = pos 0 };
  retry = record { max_attempts = pos 0; initial_interval = pos 0; max_interval = pos 0 };
}

load-InRange_example :
    (load process true (some written) ≢ inl invalid)
    × ((c : Config) → load process true (some written) ≡ inr c → InRange c)
load-InRange_example = load-InRange process true (some written)
