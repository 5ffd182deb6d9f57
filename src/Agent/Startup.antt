-- ===== src/Agent/Startup.antt =====
-- `runAgent` of cmd/agent/main.go up to the loops: where the key comes from, which transport is used,
-- and what happens when the server says that the key is revoked.
pub mod Keys
mod Examples
use monitor_agent.Base.{
  ℕ, ◌+◌, Bool, true, false, not, Option, none, some, List, [], ◌∷◌, Text, lit, empty, is_empty,
  text_eq, if◌then◌else◌,
}
use monitor_agent.Base.Int.{pos}
use monitor_agent.Client.{Failure, is_api_error_code}
use monitor_agent.Device.Store.{
  Files, Content, missing, bytes, Loaded, loaded, failed, FileError, load_api_key, store_api_key,
}
use monitor_agent.Device.Info.{Info}
use monitor_agent.Pairing.{Ended, PairingError, paired, failed, panicked}

pub data StartError : Type 0 where
  collect_failed : StartError
  pairing_failed : PairingError → StartError
  store_failed : FileError → StartError

-- How the start goes on: with a key, with an error that `runAgent` returns, or with a panic of
-- `RunPairing`.
pub data Acquired : Type 0 where
  with_key : Text → Acquired
  stopped : StartError → Acquired
  crashed : Acquired

-- what `device.Collect` gives the first and the second time, and how `RunPairing` would end
pub record Answers : Type 0 where
  pub first_info : Option Info
  pub second_info : Option Info
  pub pairing : Ended

-- `apiKey, _ := device.LoadAPIKey(…)`
unfoldable pub loaded_key : Loaded → Text
loaded_key (loaded key) = key
loaded_key (Loaded.failed e) = empty

unfoldable pub device_info : Answers → Option Info
device_info a = elim a.first_info [ some i ↦ some i | none ↦ a.second_info ]

-- `StoreAPIKey` and the rest of the branch
unfoldable pub keep_key : Text → Text → Option FileError × Files → Acquired × Files
keep_key path key (none, files) = (with_key key, files)
keep_key path key (some e, files) = (stopped (store_failed e), files)

-- the branch of an empty key, once the device is known
unfoldable pub pair_device : Text → Ended → Files → Acquired × Files
unfolding keep_key
pair_device path (paired key) files = keep_key path key (store_api_key path key files)
pair_device path (Ended.failed e) files = (stopped (pairing_failed e), files)
pair_device path panicked files = (crashed, files)

unfoldable pub acquire_key : Text → Answers → Files → Acquired × Files
unfolding loaded_key device_info pair_device
acquire_key path a files =
    let key = loaded_key (load_api_key path files) in
    if not (is_empty key) then (with_key key, files) else elim (device_info a) [
      | none ↦ (stopped collect_failed, files)
      | some info ↦ pair_device path a.pairing files
    ]

pub data Broker : Type 0 where
  mqtt_broker redis_broker no_broker : Broker

pub data Reporter : Type 0 where
  mqtt_reporter http_reporter : Reporter

-- the choice of the transport, by its type and by which server answers
unfoldable pub choose_transport : Text → Bool → Bool → Broker × Reporter
choose_transport type mqtt_ok redis_ok =
    if text_eq type (lit "mqtt")
    then (if mqtt_ok
        then (mqtt_broker, mqtt_reporter)
        else if redis_ok
        then (redis_broker, http_reporter)
        else (no_broker, http_reporter))
    else if redis_ok
    then (redis_broker, http_reporter)
    else (no_broker, http_reporter)

-- the file system, `revokeOnce`, and how often the exit has been set
pub record Running : Type 0 where
  pub files : Files
  pub revoked : Bool
  pub exits : ℕ

-- `os.Remove`; `removes` is false where it fails.
unfoldable pub remove_file : Bool → Text → Files → Files
remove_file removes path files =
    if removes
    then record files {
      content = λ other. if text_eq other path then missing else files.content other;
    }
    else files

-- `handleCredentialRevoked`
unfoldable pub handle_credential_revoked : Bool → Text → Running → Running
unfolding remove_file
handle_credential_revoked removes path r =
    if r.revoked
    then r
    else record { files = remove_file removes path r.files; revoked = true; exits = r.exits + 1 }

-- the end of `sendHeartbeat`, by the error of `Heartbeat`
unfoldable pub after_heartbeat : Bool → Text → Option Failure → Running → Running
unfolding handle_credential_revoked
after_heartbeat removes path e r =
    if is_api_error_code e (pos 40002) then handle_credential_revoked removes path r else r

unfoldable pub heartbeats : Bool → Text → List (Option Failure) → Running → Running
unfolding after_heartbeat
heartbeats removes path [] r = r
heartbeats removes path (e ∷ es) r = heartbeats removes path es (after_heartbeat removes path e r)
