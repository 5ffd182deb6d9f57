-- ===== src/Agent/PairingCode.antt =====
-- `runPairingCodeCommand` and `runStatusCommand` of cmd/agent/main.go: the commands that show and
-- finish a pairing.
pub mod Stored
use monitor_agent.Base.{
  ℕ, Bool, true, false, not, ◌&&◌, Option, none, some, ◌⊎◌, inl, inr, Text, lit, empty, is_empty,
  text_eq, if◌then◌else◌, zero, suc, ◌/◌, ltb,
}
use monitor_agent.Base.Int.{ℤ, pos, negsuc, ltb_ℤ}
use monitor_agent.Config.{Config}
use monitor_agent.Client.{Outcome}
use monitor_agent.Crypto.{Primitives, Envelope}
use monitor_agent.Device.Info.{Info}
use monitor_agent.Device.Store.{Files, FileError, load_api_key, store_api_key}
use monitor_agent.Pairing.{
  StatusResp, RequestResp, PairingCodeInfo, PairingStatusInfo, PairingError, Ended, paired, failed,
  panicked, request_pairing_code, get_pairing_status, take_key,
}
use monitor_agent.Agent.Startup.{loaded_key}

-- How the command ends.
pub data Shown : Type 0 where
  already_paired : Shown
  newly_paired : Shown
  code_shown : PairingCodeInfo → Shown
  collect_error : Shown
  pairing_error : PairingError → Shown
  store_error : FileError → Shown
  panic : Shown

-- What the command reads: `device.Collect`, how the request for the status ends, the clock, the public
-- key, how the request for a code ends, and the clock after it.
pub record Answers : Type 0 where
  pub info : Option Info
  pub status : Outcome StatusResp
  pub status_at : ℕ
  pub public_key : Option Text
  pub request : Outcome RequestResp
  pub request_at : ℕ

unfoldable pub known_status : PairingError ⊎ PairingStatusInfo → Option PairingStatusInfo
known_status (inl e) = none
known_status (inr i) = some i

-- the code of a pairing that is pending
unfoldable pub pending_code : Text → Text → PairingStatusInfo → Option PairingCodeInfo
pending_code node_id hostname s =
    if text_eq s.status (lit "pending")
      && not (is_empty s.pairing_code)
      && ltb_ℤ (pos 0) s.expires_in
    then some (record {
      node_id = node_id;
      hostname = hostname;
      pairing_code = s.pairing_code;
      expires_in = s.expires_in;
      expires_at = s.expires_at;
      status = s.status;
    })
    else none

unfoldable pub shown_code : PairingError ⊎ PairingCodeInfo → Shown
shown_code (inl e) = pairing_error e
shown_code (inr i) = code_shown i

unfoldable pub saved : Option FileError × Files → Shown × Files
saved (none, files) = (newly_paired, files)
saved (some e, files) = (store_error e, files)

-- the branch of a device that the server has paired
unfoldable pub finish_pairing : Text → Ended → Files → Shown × Files
unfolding saved
finish_pairing path (paired key) files = saved (store_api_key path key files)
finish_pairing path (failed e) files = (pairing_error e, files)
finish_pairing path panicked files = (panic, files)

module _ (prims : Primitives) (decode_key : Text → Option Text) (priv node_id path : Text) where
  -- the branch without a key, once the device and the status are known
  unfoldable pub show_code : Answers → Text → Option PairingStatusInfo → Shown
  unfolding pending_code shown_code
  show_code a hostname status =
      let requested =
        shown_code (request_pairing_code node_id hostname a.public_key a.request a.request_at) in
      elim status [
        | none ↦ requested
        | some s ↦ elim (pending_code node_id hostname s) [
          | none ↦ requested
          | some code ↦ code_shown code
        ]
      ]

  unfoldable pub with_status : Answers → Text → Option PairingStatusInfo → Files → Shown × Files
  unfolding finish_pairing show_code
  with_status a hostname none files = (show_code a hostname none, files)
  with_status a hostname (some s) files =
      if text_eq s.status (lit "paired")
      then finish_pairing path
          (take_key prims decode_key priv node_id hostname a.status_at s.api_key_envelope) files
      else (show_code a hostname (some s), files)

  -- `runPairingCodeCommand`
  unfoldable pub run_pairing_code : Answers → Files → Shown × Files
  unfolding with_status known_status
  run_pairing_code a files =
      if not (is_empty (loaded_key (load_api_key path files)))
      then (already_paired, files)
      else elim a.info [
        | none ↦ (collect_error, files)
        | some i ↦
            with_status a i.hostname
              (known_status (get_pairing_status node_id a.status a.status_at)) files
      ]

-- the status that `runStatusCommand` prints
unfoldable pub status_text : Text → Files → Text
status_text path files =
    if not (is_empty (loaded_key (load_api_key path files))) then lit "paired" else lit "unpaired"

-- the minutes that `runPairingCodeCommand` prints for `ExpiresIn`, if it prints any
unfoldable pub minutes_of : ℤ → Option ℕ
minutes_of (negsuc n) = none
minutes_of (pos zero) = none
minutes_of (pos (suc n)) = some (if ltb (suc n / 60) 1 then 1 else suc n / 60)

-- what `runStatusCommand` prints
pub record Status : Type 0 where
  pub status : Text
  pub node_id : Text
  pub server_url : Text
  pub data_dir : Text

unfoldable pub run_status : Config → Text → Files → Status
unfolding status_text
run_status cfg node_id files = record {
  status = status_text cfg.device.api_key_file files;
  node_id = node_id;
  server_url = cfg.server.url;
  data_dir = cfg.device.data_dir;
}
