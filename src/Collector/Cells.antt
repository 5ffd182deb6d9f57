-- ===== src/Collector/Cells.antt =====
-- internal/collector/openclaw.go: the cells of an agent: `parseAgentIDAndName`, and how the activity
-- and the bootstrap file are shortened. `fold` is `unicode.ToLower` of a rune beyond ASCII.
pub mod Names
use monitor_agent.Base.{
  ℕ, zero, suc, ◌-◌, Bool, true, false, not, ◌&&◌, ◌||◌, Option, none, some, List, [], ◌∷◌, ◌++◌,
  keep, length, drop, take, Text, lit, empty, is_empty, text_eq, trim_space, has_prefix, contains,
  split, words, join, ltb, ◌==◌, if◌then◌else◌,
}
use monitor_agent.Base.Int.{ℤ, pos}
use monitor_agent.Command.Json.{Json}
use monitor_agent.Collector.Words.{
  any, get_elem?, is_digit, is_blank, drop_while, drop_end, take_while, has_suffix, trim_suffix,
  cut, base_name, parse_int, parse_sessions_value, to_lower,
}
use monitor_agent.Collector.Table.{
  is_table_separator, is_next_section, split_table_row, find_section_start,
}

-- a name without the parenthesis at its end
unfoldable pub drop_paren : Text → Text
unfolding has_suffix
drop_paren name =
    if has_suffix name (lit ")") then trim_space (take (length name - 1) name) else name

-- `parseAgentIDAndName`
unfoldable pub parse_agent_id_and_name : Text → Text × Text
unfolding cut drop_paren
parse_agent_id_and_name s =
    let t = trim_space s in
    elim (cut (lit " (") t) [
      | none ↦ (t, empty)
      | some p ↦ if is_empty p.0 then (t, empty) else (trim_space p.0, drop_paren (trim_space p.1))
    ]

abbrev pub one_of : List Text → Text → Bool
one_of names s = any (λ n. text_eq s n) names

-- `^\d+\s*[smhdw]$`
unfoldable pub is_duration : Text → Bool
is_duration s = elim (drop_while is_blank (drop_while is_digit s)) [
  | c ∷ [] ↦
      not (is_empty (take_while is_digit s))
      && (c == b's' || c == b'm' || c == b'h' || c == b'd' || c == b'w')
  | _ ↦ false
]

module _ (fold : ℕ → ℕ) where
  -- `normalizeAgentActive`. The two last results are one: the first pattern has no blanks to remove.
  unfoldable pub normalize_agent_active : Text → Text
  unfolding is_duration trim_suffix
  normalize_agent_active value =
      let lower = to_lower fold (trim_space value) in
      let short = join (words (trim_suffix lower (lit " ago"))) (lit " ") in
      if is_empty (trim_space value)
      then empty
      else if one_of
          (lit "-"
            ∷ lit "—"
            ∷ lit "n/a"
            ∷ lit "na"
            ∷ lit "none"
            ∷ lit "null"
            ∷ lit "offline"
            ∷ lit "inactive"
            ∷ lit "unknown"
            ∷ [])
          lower
      then empty
      else if one_of (lit "just now" ∷ lit "now" ∷ []) lower
      then lit "now"
      else if is_duration short
      then keep (λ c. not (c == 32)) short
      else short

  -- `normalizeAgentBootstrap`
  unfoldable pub unquoted : Text → Text
  unquoted value =
      let quote = λ (c : ℕ). c == b'"' || c == b'\'' in drop_end quote (drop_while quote value)

  unfoldable pub normalize_agent_bootstrap : Text → Text
  unfolding unquoted base_name
  normalize_agent_bootstrap value =
      let t = trim_space value in
      let v = unquoted t in
      let base = base_name v in
      if is_empty t
      then empty
      else if one_of
          (lit "-"
            ∷ lit "—"
            ∷ lit "n/a"
            ∷ lit "na"
            ∷ lit "none"
            ∷ lit "null"
            ∷ lit "default"
            ∷ lit "unknown"
            ∷ [])
          (to_lower fold t)
      then empty
      else if any (λ c. c == b'/' || c == b'\\') v
          && not (text_eq base (lit "."))
          && not (text_eq base (lit "/"))
          && not (is_empty base)
      then base
      else v
