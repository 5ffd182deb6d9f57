-- ===== src/Agent/Startup/Examples.antt =====
-- A first start that pairs the device, a revocation, and the command pairing-code.
use monitor_agent.Base.{
  ◌+◌, ◌*◌, ◌≡◌, refl, true, false, none, some, List, [], ◌∷◌, Text, lit, empty, text_eq, is_empty,
}
use monitor_agent.Base.Int.{pos}
use monitor_agent.Base.{Option}
use monitor_agent.Base.{trim_space}
use monitor_agent.Collector.Words.{any}
use monitor_agent.Client.{Failure, api_error, is_api_error_code}
use monitor_agent.Pairing.{paired, panicked}
use monitor_agent.Device.Store.{Files, missing, load_api_key, store_api_key, trimmed_content}
use monitor_agent.Device.Info.{Info}
use monitor_agent.Agent.Startup.{
  Answers, with_key, acquire_key, loaded_key, device_info, pair_device, keep_key, Running,
  heartbeats,
}
use monitor_agent.Base.Int.{◌-ℤ◌}
use monitor_agent.Client.{ok, fail, do_request}
use monitor_agent.Crypto.{open_envelope}
use monitor_agent.Crypto.Examples.{bare, sealed}
use monitor_agent.Pairing.{get_pairing_status, received, take_key, take_opened, take_api_key}
use monitor_agent.Agent.PairingCode
use monitor_agent.Agent.PairingCode.{
  newly_paired, run_pairing_code, with_status, known_status, finish_pairing, saved,
}
use monitor_agent.Agent.Startup.Keys.{is_revoked, acquire_key_again, heartbeats_revoked}
use monitor_agent.Agent.Heartbeat.{second}

abbrev no_files : Files
no_files = record {
  content = λ path. missing;
  mkdir_ok = λ path. true;
  write_ok = λ path. true;
  torn = λ path t. missing;
}

abbrev device : Info
device = record {
  device_id = lit "n1";
  hostname = lit "h";
  mac_address = lit "00:00:00:00:00:00";
  os_version = lit "linux";
  cpu_model = empty;
  cpu_cores = 1;
  memory_total = pos 0;
  disk_total = pos 0;
  agent_version = lit "1.0.0";
}

abbrev pairs : Answers
pairs = record { first_info = none; second_info = some device; pairing = paired (lit "k1\n") }

abbrev offline : Answers
offline = record { first_info = none; second_info = none; pairing = panicked }

abbrev key_file : Text
key_file = lit "/d/api_key"

abbrev after_pairing : Files
after_pairing = (acquire_key key_file pairs no_files).1

first_start : acquire_key key_file pairs no_files ≡ (with_key (lit "k1\n"), after_pairing)
unfolding acquire_key loaded_key device_info pair_device keep_key load_api_key store_api_key
    trimmed_content
first_start = refl

key_there : is_empty (trim_space (lit "k1\n")) ≡ false
unfolding lit trim_space
key_there = refl

acquire_key_again_example :
    acquire_key key_file offline after_pairing ≡ (with_key (trim_space (lit "k1\n")), after_pairing)
acquire_key_again_example =
    acquire_key_again key_file (lit "k1\n") pairs offline no_files after_pairing first_start
      key_there

abbrev up_and_running : Running
up_and_running = record { files = after_pairing; revoked = false; exits = 0 }

abbrev two_revocations : List (Option Failure)
two_revocations =
    none
    ∷ some (api_error (pos 40002) (lit "revoked"))
    ∷ some (api_error (pos 40002) (lit "revoked"))
    ∷ []

heartbeats_revoked_example :
    (any is_revoked two_revocations ≡ false
      → heartbeats true key_file two_revocations up_and_running ≡ up_and_running)
    × (any is_revoked two_revocations ≡ true
        → ((heartbeats true key_file two_revocations up_and_running).exits ≡ 0 + 1)
          × (true ≡ true
              → (a : Answers) (info : Info) → device_info a ≡ some info
              → acquire_key key_file a
                  (heartbeats true key_file two_revocations up_and_running).files
                ≡ pair_device key_file a.pairing
                    (heartbeats true key_file two_revocations up_and_running).files))
heartbeats_revoked_example = heartbeats_revoked true key_file two_revocations up_and_running refl

two_are_revoked : any is_revoked two_revocations ≡ true
unfolding is_api_error_code
two_are_revoked = refl

abbrev whole : Text → Option Text
whole t = some t

abbrev server_answers : PairingCode.Answers
server_answers = record {
  info = some device;
  status = ok (
      some (record {
        status = lit "paired";
        pairing_code = empty;
        expires_in = pos 0;
        api_key_envelope = some (sealed (pos 1000));
      }));
  status_at = 1001 * second;
  public_key = some (lit "PEM");
  request = fail do_request;
  request_at = 1002 * second;
}

paired_now :
    (run_pairing_code bare whole (lit "private") (lit "node") key_file server_answers no_files).0
    ≡ newly_paired
unfolding run_pairing_code with_status known_status get_pairing_status received finish_pairing saved
    take_key take_opened take_api_key open_envelope ◌-ℤ◌ loaded_key load_api_key store_api_key
    trimmed_content text_eq lit
paired_now = refl
