-- ===== src/Command/ConfigFile/Write.antt =====
-- The write action of `openclaw_config`.
use monitor_agent.Base.{◌≡◌, arith, none, Text, inl, inr}
use monitor_agent.Command.Json.{Json}
use monitor_agent.Command.Host.{Host}
use monitor_agent.Command.ConfigFile.{backup, config_write}

module _ (h : Host) where
  open h use {State, config_path, write_file, mkdir_all, dir, unmarshal, marshal_indent}

  -- What a write that is reported as done has done: the content is JSON, the folder was made, and
  -- the last call wrote the indented form of the content to the config path.
  pub record Written (path content : Text) (s s' : State) : Type 0 where
    pub value : Json
    pub is_json : unmarshal content ≡ inr value
    pub made : (mkdir_all (dir path) (backup h path s)).0 ≡ none
    pub wrote :
        write_file path (marshal_indent value) (mkdir_all (dir path) (backup h path s)).1
        ≡ (none, s')

  -- A content that is not JSON leaves the machine alone.
  pub config_write_invalid :
      (path content err : Text) (s : State)
      → unmarshal content ≡ inl err
      → (config_write h path content s).1 ≡ s
  unfolding config_write
  config_write_invalid path content err s e = ground arith
