-- ===== src/Agent/Runtime.antt =====
-- cmd/agent/main.go around `runAgent`: the choice of the command, `loadRuntime`, `retryConfig`, and the
-- cache that the agent opens.
pub mod Again
pub mod Retry
mod Examples
use monitor_agent.Base.{
  ℕ, ◌+◌, ◌-◌, ◌*◌, ◌%◌, ◌^◌, Bool, true, false, not, Option, none, some, ◌⊎◌, inl, inr, List, [],
  ◌∷◌, ◌++◌, Text, lit, text_eq, empty, is_empty, ltb, if◌then◌else◌,
}
use monitor_agent.Base.Int.{ℤ, pos, negsuc}
use monitor_agent.Config.{Config, Process, load}
use monitor_agent.Config
use monitor_agent.Command.Cli.{times_second}
use monitor_agent.Client
use monitor_agent.Identity.{Keys, Identity, Machine, Store, load_or_create}
use monitor_agent.Identity
use monitor_agent.Cache.{Cache, Disk, File, new}

-- The functions that `main` calls, with their arguments.
pub data Entry : Type 0 where
  pairing_code_command status_command agent : List Text → Entry

-- the `switch` of `main`, by `os.Args`
unfoldable pub entry_of : List Text → Entry
entry_of [] = agent []
entry_of (program ∷ []) = agent []
entry_of (program ∷ name ∷ args) =
    if text_eq name (lit "pairing-code")
    then pairing_code_command args
    else if text_eq name (lit "status")
    then status_command args
    else agent (name ∷ args)

-- `main`, by the errors of the functions: what it prints to stderr, and the exit code
unfoldable pub main : (Entry → Option Text) → List Text → List Text × ℕ
unfolding entry_of
main error_of args = elim (error_of (entry_of args)) [ none ↦ ([], 0) | some err ↦ (err ∷ [], 1) ]

pub data RuntimeError : Type 0 where
  load_config : Config.LoadError → RuntimeError
  init_identity : Identity.LoadError → RuntimeError

-- the files of the identity in each directory
abbrev pub Stores : Type 0
Stores = Text → Store

abbrev pub put_store : Text → Store → Stores → Stores
put_store dir s stores other = if text_eq other dir then s else stores other

-- the end of `loadRuntime`
unfoldable pub with_identity :
    Config
    → (Identity.LoadError ⊎ Identity) × Store
    → Stores
    → (RuntimeError ⊎ (Config × Identity)) × Stores
with_identity cfg (inl e, s) stores =
    (inl (init_identity e), put_store cfg.device.data_dir s stores)
with_identity cfg (inr id, s) stores = (inr (cfg, id), put_store cfg.device.data_dir s stores)

-- `loadRuntime`, by what viper gives
unfoldable pub load_runtime :
    Keys
    → Process
    → Bool
    → Option Config
    → Machine
    → Stores
    → (RuntimeError ⊎ (Config × Identity)) × Stores
unfolding with_identity
load_runtime keys p readable decoded m stores = elim (load p readable decoded) [
  | inl e ↦ (inl (load_config e), stores)
  | inr cfg ↦ with_identity cfg (load_or_create keys m (stores cfg.device.data_dir)) stores
]

-- `retryConfig`; a product of a duration wraps.
unfoldable pub retry_config : Config → Client.RetryConfig
unfolding times_second
retry_config cfg = record {
  max_attempts = cfg.retry.max_attempts;
  initial_interval = times_second cfg.retry.initial_interval;
  max_interval = times_second cfg.retry.max_interval;
}

-- The cache of `runAgent`: none without a directory, and none where `cache.New` fails, which is only
-- logged. `made` tells whether `os.MkdirAll` succeeds.
unfoldable pub open_cache : Config → Bool → List File → Option ℤ → Disk → Option Cache
open_cache cfg made files index disk =
    if not (is_empty cfg.cache.dir)
    then (if made then some (new files index cfg.cache.max_size_mb disk) else none)
    else none

-- `publicKeyPEM`: the text of `PublicKeyPEM`, or "" for its error, which is only logged
unfoldable pub public_key_text : Option Text → Text
public_key_text none = empty
public_key_text (some pem) = pem

-- the lines that `-info` prints, by the type of the key store and the fingerprint, "" for an error
unfoldable pub show_info : Text → Option Text → Config → Identity → List (Text × Text)
show_info storage_type fingerprint cfg id =
    (lit "Node ID", id.node_id)
    ∷ (lit "Key Storage", storage_type)
    ∷ (lit "Public Key", elim fingerprint [ none ↦ empty | some fp ↦ fp ])
    ∷ (lit "Data Dir", cfg.device.data_dir)
    ∷ []
