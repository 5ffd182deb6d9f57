-- ===== src/Uploader.antt =====
-- internal/uploader/uploader.go and internal/device/register.go: the requests that the agent posts.
-- `UploadLogs` on the entries of the logger is part of the log loop (Agent.LogUpload).
use monitor_agent.Base.{ℕ, Option, none, some, List, [], ◌∷◌, map, Text, empty}
use monitor_agent.Base.Int.{ℤ, pos}
use monitor_agent.Client.{Outcome}
use monitor_agent.Device.Info.{Info}
use monitor_agent.Collector.Skills.{SkillItem}
use monitor_agent.Logger.{LogEntry}

-- `RegisterRequest`
pub record RegisterRequest : Type 0 where
  pub device_id : Text
  pub hostname : Text
  pub mac_address : Text
  pub os_version : Text
  pub cpu_model : Text
  pub cpu_cores : ℕ
  pub memory_total : ℤ
  pub disk_total : ℤ
  pub agent_version : Text

-- `ToRegisterRequest`
unfoldable pub to_register_request : Info → RegisterRequest
to_register_request i = record {
  device_id = i.device_id;
  hostname = i.hostname;
  mac_address = i.mac_address;
  os_version = i.os_version;
  cpu_model = i.cpu_model;
  cpu_cores = i.cpu_cores;
  memory_total = i.memory_total;
  disk_total = i.disk_total;
  agent_version = i.agent_version;
}

-- `HeartbeatRequest`
pub record HeartbeatRequest : Type 0 where
  pub agent_version : Text
  pub status : ℤ
  pub cpu_model : Text
  pub cpu_cores : ℕ
  pub memory_total : ℤ
  pub disk_total : ℤ
  pub public_key_pem : Text
  pub extra_data : Option Text

-- the request of `Heartbeat`
unfoldable pub heartbeat_request : Option Info → Text → ℤ → Text → Option Text → HeartbeatRequest
heartbeat_request none version status pem extra = record {
  agent_version = version;
  status = status;
  cpu_model = empty;
  cpu_cores = 0;
  memory_total = pos 0;
  disk_total = pos 0;
  public_key_pem = pem;
  extra_data = extra;
}
heartbeat_request (some i) version status pem extra = record {
  agent_version = version;
  status = status;
  cpu_model = i.cpu_model;
  cpu_cores = i.cpu_cores;
  memory_total = i.memory_total;
  disk_total = i.disk_total;
  public_key_pem = pem;
  extra_data = extra;
}

-- `Register`: `post` is `Client.Post` under a key, and the key of the client is what it was.
unfoldable pub register :
    {A : Type 0} → (Text → RegisterRequest → Outcome A) → Text → Info → Outcome A × Text
unfolding to_register_request
register post key i = (post empty (to_register_request i), key)

-- the request of `UploadMetrics`, if there is one
unfoldable pub metrics_request : {A : Type 0} → List A → Option (List A)
metrics_request [] = none
metrics_request (m ∷ ms) = some (m ∷ ms)

-- the request of `UploadSkills`, if there is one
unfoldable pub skills_request : ℕ → List SkillItem → Option (ℕ × List SkillItem)
skills_request now [] = none
skills_request now (s ∷ ss) = some (now, s ∷ ss)

-- `logItem`; a time that does not parse is the zero time.
pub record LogItem (T : Type 0) : Type 0 where
  pub log_level : Text
  pub log_source : Text
  pub log_message : Text
  pub log_time : T
  pub sequence : ℕ

unfoldable pub log_item : {T : Type 0} → (Text → T) → LogEntry → LogItem T
log_item parse_time e = record {
  log_level = e.level;
  log_source = e.source;
  log_message = e.message;
  log_time = parse_time e.time;
  sequence = e.sequence;
}

-- the request of `UploadLogs`, if there is one
unfoldable pub logs_request :
    {T : Type 0} → (Text → T) → Text → List LogEntry → Option (Text × List (LogItem T))
unfolding log_item
logs_request parse_time batch_id [] = none
logs_request parse_time batch_id (e ∷ es) = some (batch_id, map (log_item parse_time) (e ∷ es))
