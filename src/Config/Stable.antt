-- ===== src/Config/Stable.antt =====
-- Applying the defaults a second time changes nothing.
use monitor_agent.Base.{
  ℕ, ◌≤◌, ◌≡◌, refl, arith, false, List, [], ◌∷◌, map, Text, lit, is_empty, has_prefix, drop,
  Bool-cases, inl, inr, trim_space, if◌then◌else◌,
}
use monitor_agent.Base.Int.{ℤ}
use monitor_agent.Config.{
  Config, ServerConfig, TransportConfig, RedisConfig, IntervalsConfig, DeviceConfig, LogsConfig,
  CacheConfig, RetryConfig, default_scan_paths, Process, home_of, apply_defaults, positive_or,
  at_most, text_or, default_server, default_transport, default_redis, default_intervals,
  default_device, default_logs, default_cache, default_retry, default_paths, expand_tilde, no_paths,
}

-- `filepath.Join` gives "" only where every element is "", and below the home directory it gives no
-- path that begins with a tilde.
pub record JoinLaws (p : Process) : Type 0 where
  pub filled :
      (a : Text) (rest : List Text) → is_empty a ≡ false → is_empty (p.path_join (a ∷ rest)) ≡ false
  pub expanded : (path : Text) → has_prefix (p.path_join (home_of p ∷ path ∷ [])) (lit "~/") ≡ false

positive_or_idem : (d : ℕ) (v : ℤ) → 1 ≤ d → positive_or d (positive_or d v) ≡ positive_or d v
unfolding positive_or
positive_or_idem d v h = ground arith

batch_idem :
    (limit d : ℕ) (v : ℤ)
    → 1 ≤ d
    → 1 ≤ limit
    → at_most limit (positive_or d (at_most limit (positive_or d v)))
      ≡ at_most limit (positive_or d v)
unfolding positive_or at_most
batch_idem limit d v h k = ground arith

text_or_again : (d e s : Text) → is_empty d ≡ false → text_or e (text_or d s) ≡ text_or d s
unfolding text_or
text_or_again d e s h = ground arith

url_filled : is_empty (lit "http://localhost:8080") ≡ false
unfolding lit
url_filled = refl

mqtt_filled : is_empty (lit "mqtt") ≡ false
unfolding lit
mqtt_filled = refl

module _ (p : Process) (laws : JoinLaws p) where
  expand_tilde_idem : (path : Text) → expand_tilde p (expand_tilde p path) ≡ expand_tilde p path
  unfolding expand_tilde
  expand_tilde_idem path = elim (Bool-cases (has_prefix path (lit "~/"))) [
    | inl e ↦ rw (e, laws.expanded (drop 2 path))
    | inr e ↦ rw (e, e)
  ]

  map-expand_tilde :
      (ps : List Text) → map (expand_tilde p) (map (expand_tilde p) ps) ≡ map (expand_tilde p) ps
  map-expand_tilde [] = refl
  map-expand_tilde (x ∷ xs) = cc (expand_tilde_idem x, map-expand_tilde xs)

  default_paths_idem : (ps : List Text) → default_paths p (default_paths p ps) ≡ default_paths p ps
  unfolding default_paths
  default_paths_idem ps = elim (Bool-cases (is_empty (trim_space p.skills_paths))) [
    | inr filled ↦ rw filled
    | inl unset ↦ rw unset (chosen ps)
  ]
    where
      chosen :
          (qs : List Text)
          → map (expand_tilde p) (
              if no_paths (map (expand_tilde p) (if no_paths qs then default_scan_paths else qs))
              then default_scan_paths
              else map (expand_tilde p) (if no_paths qs then default_scan_paths else qs))
            ≡ map (expand_tilde p) (if no_paths qs then default_scan_paths else qs)
      chosen [] = map-expand_tilde default_scan_paths
      chosen (q ∷ qs) = map-expand_tilde (q ∷ qs)

  server_idem : (s : ServerConfig) → default_server (default_server s) ≡ default_server s
  unfolding default_server
  server_idem s = ground (
    arith,
    text_or_again (lit "http://localhost:8080") (lit "http://localhost:8080") s.url url_filled,
    positive_or_idem 30 s.timeout,
  )

  transport_idem :
      (t : TransportConfig) → default_transport (default_transport t) ≡ default_transport t
  unfolding default_transport
  transport_idem t = ground (
    arith,
    text_or_again (lit "mqtt") (lit "mqtt") t.type mqtt_filled,
    positive_or_idem 60 t.mqtt.keep_alive,
    positive_or_idem 5 t.mqtt.reconnect_interval,
  )

  redis_idem :
      (type : Text) (r : RedisConfig)
      → default_redis type (default_redis type r) ≡ default_redis type r
  unfolding default_redis
  redis_idem type r = ground arith

  intervals_idem :
      (i : IntervalsConfig) → default_intervals (default_intervals i) ≡ default_intervals i
  unfolding default_intervals
  intervals_idem i = ground (
    arith,
    positive_or_idem 60 i.heartbeat,
    positive_or_idem 30 i.metrics,
    positive_or_idem 300 i.skills,
    positive_or_idem 60 i.log_upload,
  )

  home_filled : is_empty (home_of p) ≡ false
  unfolding home_of text_or lit
  home_filled = ground arith

  text_or-filled : (d s : Text) → is_empty d ≡ false → is_empty (text_or d s) ≡ false
  unfolding text_or
  text_or-filled d s h = ground arith

  abbrev share : Text
  share =
      p.path_join (home_of p ∷ lit ".local" ∷ lit "share" ∷ lit "monitor-agent" ∷ lit "data" ∷ [])

  data_dir_filled : (d : DeviceConfig) → is_empty (default_device p d).data_dir ≡ false
  unfolding default_device
  data_dir_filled d = text_or-filled share d.data_dir (laws.filled (home_of p) _ home_filled)

  below : DeviceConfig → Text → Text
  below d name = p.path_join (text_or share d.data_dir ∷ name ∷ [])

  below-filled : (d : DeviceConfig) (name : Text) → is_empty (below d name) ≡ false
  unfolding below
  below-filled d name =
      laws.filled (text_or share d.data_dir) (name ∷ [])
        (unfold default_device in data_dir_filled d)

  device_idem : (d : DeviceConfig) → default_device p (default_device p d) ≡ default_device p d
  unfolding default_device below
  device_idem d =
      let id = lit "device_id" in
      let key = lit "api_key" in
      rw (text_or_again share share d.data_dir (laws.filled (home_of p) _ home_filled)) (
        ground (
          arith,
          text_or_again (below d id) (below d id) d.id_file (below-filled d id),
          text_or_again (below d key) (below d key) d.api_key_file (below-filled d key),
        ))

  logs_idem :
      (dir : Text) (l : LogsConfig)
      → is_empty dir ≡ false
      → default_logs p dir (default_logs p dir l) ≡ default_logs p dir l
  unfolding default_logs
  logs_idem dir l h = ground (
    arith,
    text_or_again (p.path_join (dir ∷ lit "logs" ∷ lit "agent.log" ∷ []))
        (p.path_join (dir ∷ lit "logs" ∷ lit "agent.log" ∷ [])) l.file (laws.filled dir _ h),
    positive_or_idem 100 l.max_size,
    positive_or_idem 3 l.max_backups,
    batch_idem 1000 100 l.batch_size,
  )

  cache_idem :
      (dir : Text) (c : CacheConfig)
      → is_empty dir ≡ false
      → default_cache p dir (default_cache p dir c) ≡ default_cache p dir c
  unfolding default_cache
  cache_idem dir c h = ground (
    arith,
    text_or_again (p.path_join (dir ∷ lit "cache" ∷ [])) (p.path_join (dir ∷ lit "cache" ∷ []))
        c.dir (laws.filled dir _ h),
    positive_or_idem 50 c.max_size_mb,
  )

  retry_idem : (r : RetryConfig) → default_retry (default_retry r) ≡ default_retry r
  unfolding default_retry
  retry_idem r = ground (
    arith,
    positive_or_idem 5 r.max_attempts,
    positive_or_idem 1 r.initial_interval,
    positive_or_idem 30 r.max_interval,
  )

  -- Where `filepath.Join` keeps its promises, applying the defaults a second time changes nothing.
  pub apply_defaults_idem :
      (c : Config) → apply_defaults p (apply_defaults p c) ≡ apply_defaults p c
  unfolding apply_defaults
  apply_defaults_idem c =
      let dir = (default_device p c.device).data_dir in
      let filled = data_dir_filled c.device in
      simp (
        server_idem,
        transport_idem,
        device_idem,
        redis_idem,
        intervals_idem,
        retry_idem,
        default_paths_idem,
        batch_idem 100 10 c.metrics_batch_size (omega arith) (omega arith),
        logs_idem dir c.logs filled,
        cache_idem dir c.cache filled,
      )
