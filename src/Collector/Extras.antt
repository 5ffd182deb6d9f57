-- ===== src/Collector/Extras.antt =====
-- internal/collector/openclaw.go: the collectors of update, gateway, models and daemon, which read
-- the lines of a status command.
use monitor_agent.Base.{
  ℕ, not, ◌&&◌, ◌||◌, Option, none, some, List, [], ◌∷◌, Text, lit, empty, is_empty, trim_space,
  has_prefix, contains, drop, length, split, if◌then◌else◌,
}
use monitor_agent.Base.Int.{ℤ, pos}
use monitor_agent.Collector.Words.{to_lower, cut, extract_table_value, extract_paren_number}
use monitor_agent.Collector.Env.{Env, run_quick_cli}

pub record Update : Type 0 where
  pub install : Text
  pub channel : Text
  pub available : Text

pub record Gateway : Type 0 where
  pub service : Text
  pub runtime : Text
  pub bind : Text
  pub port : Text
  pub rpc_probe : Text

pub record Models : Type 0 where
  pub default : Text
  pub image_model : Text
  pub fallback_count : ℤ
  pub alias_count : ℤ

pub record Daemon : Type 0 where
  pub service : Text
  pub runtime : Text
  pub log_file : Text

-- a loop over the lines
unfoldable pub over_lines : {A : Type 0} → (Text → A → A) → List Text → A → A
over_lines f [] a = a
over_lines f (l ∷ ls) a = over_lines f ls (f l a)

module _ (fold : ℕ → ℕ) where
  unfoldable pub update_line : Text → Update → Update
  update_line line u =
      let lower = to_lower fold (trim_space line) in
      if contains lower (lit "install")
      then record u { install = extract_table_value line }
      else if contains lower (lit "channel")
      then record u { channel = extract_table_value line }
      else if contains lower (lit "update") && not (has_prefix lower (lit "openclaw"))
      then record u { available = extract_table_value line }
      else u

  -- `strings.TrimSpace(trimmed[len(label):])`
  abbrev pub behind : Text → Text → Text
  behind label trimmed = trim_space (drop (length label) trimmed)

  unfoldable pub gateway_line : Text → Gateway → Gateway
  gateway_line line g =
      let trimmed = trim_space line in
      let lower = to_lower fold trimmed in
      if has_prefix lower (lit "service:")
      then record g { service = behind (lit "Service:") trimmed }
      else if has_prefix lower (lit "runtime:")
      then record g { runtime = behind (lit "Runtime:") trimmed }
      else if has_prefix lower (lit "gateway:") && contains lower (lit "bind")
      then record g { bind = behind (lit "Gateway:") trimmed }
      else if has_prefix lower (lit "listening:")
      then record g { port = behind (lit "Listening:") trimmed }
      else if has_prefix lower (lit "rpc probe:")
      then record g { rpc_probe = behind (lit "RPC probe:") trimmed }
      else g

  -- what stands behind the first colon, if there is one
  abbrev pub behind_colon : Text → Text → Text
  behind_colon old trimmed = elim (cut (lit ":") trimmed) [ none ↦ old | some p ↦ trim_space p.1 ]

  unfoldable pub models_line : Text → Models → Models
  models_line line m =
      let trimmed = trim_space line in
      let lower = to_lower fold trimmed in
      if has_prefix lower (lit "default")
      then record m { default = behind_colon m.default trimmed }
      else if has_prefix lower (lit "image model")
      then record m { image_model = behind_colon m.image_model trimmed }
      else if has_prefix lower (lit "fallbacks")
      then record m { fallback_count = extract_paren_number trimmed }
      else if has_prefix lower (lit "aliases")
      then record m { alias_count = extract_paren_number trimmed }
      else m

  unfoldable pub daemon_line : Text → Daemon → Daemon
  daemon_line line d =
      let trimmed = trim_space line in
      let lower = to_lower fold trimmed in
      if has_prefix lower (lit "service:")
      then record d { service = behind (lit "Service:") trimmed }
      else if has_prefix lower (lit "runtime:")
      then record d { runtime = behind (lit "Runtime:") trimmed }
      else if has_prefix lower (lit "file logs:")
      then record d { log_file = behind (lit "File logs:") trimmed }
      else d

  -- the end of `collectUpdateStatus`
  unfoldable pub update_found : Text → Update → Option Update
  update_found out u =
      if is_empty u.install && is_empty u.channel && is_empty u.available
      then (if contains (to_lower fold out) (lit "available")
          then some (record u { available = out })
          else none)
      else some u

module _ (env : Env) where
  -- `collectUpdateStatus`
  unfoldable pub collect_update_status : Option Update
  unfolding over_lines update_line update_found
  collect_update_status =
      let out = run_quick_cli env (lit "update" ∷ lit "status" ∷ []) in
      let u =
        over_lines (update_line env.fold) (split 10 out)
          (record { install = empty; channel = empty; available = empty }) in
      if is_empty out then none else update_found env.fold out u

  -- `collectGatewayStatus`
  unfoldable pub collect_gateway_status : Option Gateway
  unfolding over_lines gateway_line
  collect_gateway_status =
      let out = run_quick_cli env (lit "gateway" ∷ lit "status" ∷ []) in
      let g = over_lines (gateway_line env.fold) (split 10 out) (record {
        service = empty;
        runtime = empty;
        bind = empty;
        port = empty;
        rpc_probe = empty;
      }) in
      if is_empty out || (is_empty g.service && is_empty g.runtime) then none else some g

  -- `collectModelsStatus`
  unfoldable pub collect_models_status : Option Models
  unfolding over_lines models_line
  collect_models_status =
      let out = run_quick_cli env (lit "models" ∷ lit "status" ∷ []) in
      let m = over_lines (models_line env.fold) (split 10 out) (record {
        default = empty;
        image_model = empty;
        fallback_count = pos 0;
        alias_count = pos 0;
      }) in
      if is_empty out || is_empty m.default then none else some m

  -- `collectDaemonStatus`
  unfoldable pub collect_daemon_status : Option Daemon
  unfolding over_lines daemon_line
  collect_daemon_status =
      let out = run_quick_cli env (lit "daemon" ∷ lit "status" ∷ []) in
      let d =
        over_lines (daemon_line env.fold) (split 10 out)
          (record { service = empty; runtime = empty; log_file = empty }) in
      if is_empty out || (is_empty d.service && is_empty d.runtime) then none else some d
