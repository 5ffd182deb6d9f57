-- ===== src/Config.antt =====
-- internal/config/config.go: the configuration, its defaults and its check. Reading and decoding the
-- file is viper's; `filepath.Join` is a parameter.
pub mod Ranges
pub mod Stable
pub mod Paths
pub mod Examples
use monitor_agent.Base.{
  ℕ, Bool, true, false, ◌&&◌, ◌||◌, Option, none, some, ◌⊎◌, inl, inr, List, [], ◌∷◌, ◌++◌, map,
  Text, lit, text_eq, empty, is_empty, trim_space, has_prefix, drop, ◌==◌, if◌then◌else◌,
}
use monitor_agent.Base.Int.{ℤ, pos, leb_ℤ, ltb_ℤ}

pub record ServerConfig : Type 0 where
  pub url : Text
  pub timeout : ℤ

pub record DeviceConfig : Type 0 where
  pub id_file : Text
  pub api_key_file : Text
  pub data_dir : Text

pub record MqttConfig : Type 0 where
  pub broker : Text
  pub keep_alive : ℤ
  pub clean_session : Bool
  pub auto_reconnect : Bool
  pub reconnect_interval : ℤ
  pub username : Text
  pub password : Text
  pub use_tls : Bool

pub record TransportConfig : Type 0 where
  pub type : Text
  pub mqtt : MqttConfig

pub record RedisConfig : Type 0 where
  pub addr : Text
  pub password : Text
  pub db : ℤ

pub record IntervalsConfig : Type 0 where
  pub heartbeat : ℤ
  pub metrics : ℤ
  pub skills : ℤ
  pub log_upload : ℤ

pub record LogsConfig : Type 0 where
  pub level : Text
  pub file : Text
  pub max_size : ℤ
  pub max_backups : ℤ
  pub batch_size : ℤ

pub record CacheConfig : Type 0 where
  pub dir : Text
  pub max_size_mb : ℤ

pub record RetryConfig : Type 0 where
  pub max_attempts : ℤ
  pub initial_interval : ℤ
  pub max_interval : ℤ

pub record Config : Type 0 where
  pub server : ServerConfig
  pub device : DeviceConfig
  pub transport : TransportConfig
  pub redis : RedisConfig
  pub intervals : IntervalsConfig
  -- `MetricsConfig` and `SkillsConfig` have one field each.
  pub metrics_batch_size : ℤ
  pub scan_paths : List Text
  pub logs : LogsConfig
  pub cache : CacheConfig
  pub retry : RetryConfig

-- `if v <= 0 { v = default }`
unfoldable pub positive_or : ℕ → ℤ → ℤ
positive_or default v = if leb_ℤ v (pos 0) then pos default else v

-- `if v > limit { v = limit }`
unfoldable pub at_most : ℕ → ℤ → ℤ
at_most limit v = if ltb_ℤ (pos limit) v then pos limit else v

-- `if s == "" { s = default }`
unfoldable pub text_or : Text → Text → Text
text_or default s = if is_empty s then default else s

-- `strings.FieldsFunc` at commas and semicolons: the part that is open, and the parts behind it
fields_scan : Text → Text × List Text
fields_scan [] = ([], [])
fields_scan (c ∷ s) =
    let (w, ws) = fields_scan s in
    if c == b',' || c == b';' then ([], if is_empty w then ws else w ∷ ws) else (c ∷ w, ws)

fields_of : Text → List Text
unfolding fields_scan
fields_of s = let (w, ws) = fields_scan s in if is_empty w then ws else w ∷ ws

trimmed : List Text → List Text
trimmed [] = []
trimmed (f ∷ fs) =
    let t = trim_space f in let rest = trimmed fs in if is_empty t then rest else t ∷ rest

unfoldable pub split_path_list : Text → List Text
unfolding fields_of trimmed
split_path_list raw = trimmed (fields_of raw)

-- What `applyDefaults` reads of the process: the home directory, or "", and OPENCLAW_SKILLS_PATHS.
pub record Process : Type 0 where
  pub user_home : Text
  pub skills_paths : Text
  -- `filepath.Join`
  pub path_join : List Text → Text

unfoldable pub home_of : Process → Text
home_of p = text_or (lit ".") p.user_home

abbrev default_scan_paths : List Text
default_scan_paths =
    lit "~/.openclaw/skills"
    ∷ lit "~/.local/share/openclaw/skills"
    ∷ lit "~/Library/Application Support/OpenClaw/skills"
    ∷ lit "/usr/local/openclaw/skills"
    ∷ []

abbrev no_paths : List Text → Bool
no_paths [] = true
no_paths (p ∷ ps) = false

unfoldable pub expand_tilde : Process → Text → Text
unfolding home_of
expand_tilde p path =
    if has_prefix path (lit "~/") then p.path_join (home_of p ∷ drop 2 path ∷ []) else path

unfoldable pub default_paths : Process → List Text → List Text
unfolding expand_tilde split_path_list
default_paths p paths =
    let raw = trim_space p.skills_paths in
    let chosen : List Text =
      if is_empty raw
      then (if no_paths paths then default_scan_paths else paths)
      else split_path_list raw in
    map (expand_tilde p) chosen

unfoldable pub default_server : ServerConfig → ServerConfig
default_server s = record {
  url = text_or (lit "http://localhost:8080") s.url;
  timeout = positive_or 30 s.timeout;
}

unfoldable pub default_transport : TransportConfig → TransportConfig
default_transport t = record {
  type = text_or (lit "mqtt") t.type;
  mqtt = record t.mqtt {
    keep_alive = positive_or 60 t.mqtt.keep_alive;
    reconnect_interval = positive_or 5 t.mqtt.reconnect_interval;
  };
}

-- `type` is the transport type with its default.
unfoldable pub default_redis : Text → RedisConfig → RedisConfig
default_redis type r =
    if text_eq type (lit "redis") && is_empty r.addr
    then record r { addr = lit "localhost:6379" }
    else r

unfoldable pub default_intervals : IntervalsConfig → IntervalsConfig
default_intervals i = record {
  heartbeat = positive_or 60 i.heartbeat;
  metrics = positive_or 30 i.metrics;
  skills = positive_or 300 i.skills;
  log_upload = positive_or 60 i.log_upload;
}

unfoldable pub default_device : Process → DeviceConfig → DeviceConfig
default_device p d =
    let share =
      p.path_join
        (home_of p ∷ lit ".local" ∷ lit "share" ∷ lit "monitor-agent" ∷ lit "data" ∷ []) in
    let data_dir = text_or share d.data_dir in
    record {
      id_file = text_or (p.path_join (data_dir ∷ lit "device_id" ∷ [])) d.id_file;
      api_key_file = text_or (p.path_join (data_dir ∷ lit "api_key" ∷ [])) d.api_key_file;
      data_dir = data_dir;
    }

-- `dir` is the data directory with its default.
unfoldable pub default_logs : Process → Text → LogsConfig → LogsConfig
default_logs p dir l = record {
  level = l.level;
  file = text_or (p.path_join (dir ∷ lit "logs" ∷ lit "agent.log" ∷ [])) l.file;
  max_size = positive_or 100 l.max_size;
  max_backups = positive_or 3 l.max_backups;
  batch_size = at_most 1000 (positive_or 100 l.batch_size);
}

unfoldable pub default_cache : Process → Text → CacheConfig → CacheConfig
default_cache p dir c = record {
  dir = text_or (p.path_join (dir ∷ lit "cache" ∷ [])) c.dir;
  max_size_mb = positive_or 50 c.max_size_mb;
}

unfoldable pub default_retry : RetryConfig → RetryConfig
default_retry r = record {
  max_attempts = positive_or 5 r.max_attempts;
  initial_interval = positive_or 1 r.initial_interval;
  max_interval = positive_or 30 r.max_interval;
}

-- `applyDefaults`, which never fails
unfoldable pub apply_defaults : Process → Config → Config
apply_defaults p c =
    let transport = default_transport c.transport in
    let device = default_device p c.device in
    record {
      server = default_server c.server;
      device = device;
      transport = transport;
      redis = default_redis transport.type c.redis;
      intervals = default_intervals c.intervals;
      metrics_batch_size = at_most 100 (positive_or 10 c.metrics_batch_size);
      scan_paths = default_paths p c.scan_paths;
      logs = default_logs p device.data_dir c.logs;
      cache = default_cache p device.data_dir c.cache;
      retry = default_retry c.retry;
    }

-- `Validate`: false is its error.
unfoldable pub validate : Config → Bool
validate c = if is_empty c.server.url then false else true

pub data LoadError : Type 0 where
  read_config unmarshal_config invalid : LoadError

-- `Load`. `readable` is false where a file was named and cannot be read; `decoded` is what viper's
-- `Unmarshal` gives.
unfoldable pub load : Process → Bool → Option Config → LoadError ⊎ Config
load p readable decoded =
    if readable
    then elim decoded [
      | none ↦ inl unmarshal_config
      | some c ↦ if validate (apply_defaults p c) then inr (apply_defaults p c) else inl invalid
    ]
    else inl read_config
