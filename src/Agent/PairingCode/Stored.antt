-- ===== src/Agent/PairingCode/Stored.antt =====
-- Which key the command stores.
use monitor_agent.Base.{◌≡◌, Option, Text, trim_space}
use monitor_agent.Crypto.{Primitives}
use monitor_agent.Device.Store.{Files, loaded, load_api_key}
use monitor_agent.Device.Store.Kept.{OnlyAt}
use monitor_agent.Pairing.Key.{Granted}
use monitor_agent.Agent.PairingCode.{Shown, newly_paired, store_error}

module _ (prims : Primitives) (decode_key : Text → Option Text) (priv node_id path : Text) where
  -- The file holds a key that the server has granted.
  pub record Holds (files : Files) : Type 0 where
    pub key : Text
    pub hostname : Text
    pub granted : Granted prims decode_key priv node_id hostname key
    pub stored : load_api_key path files ≡ loaded (trim_space key)

  -- What a result means for the files: a new pairing stores a key, a store that fails may leave anything
  -- in the file of the key, and nothing else changes a file.
  abbrev pub Means : Files → Shown × Files → Type 0
  Means before (newly_paired, after) = Holds after
  Means before (store_error e, after) = OnlyAt path before after
  Means before (_, after) = after ≡ before
