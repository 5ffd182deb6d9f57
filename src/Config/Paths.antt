-- ===== src/Config/Paths.antt =====
-- The list of paths in OPENCLAW_SKILLS_PATHS.
use monitor_agent.Base.{
  ◌≡◌, false, List, [], ◌∷◌, All, Text, trim_space, trim_space_idem, is_empty, Bool-cases, inl, inr,
}
use monitor_agent.Config.{split_path_list, trimmed, fields_of}

-- A path of the list: trimmed, and not "".
abbrev pub IsTrimmed : Text → Type 0
IsTrimmed t = (trim_space t ≡ t) × (is_empty t ≡ false)

trimmed-IsTrimmed : (fs : List Text) → All IsTrimmed (trimmed fs)
unfolding trimmed
trimmed-IsTrimmed [] = tt
trimmed-IsTrimmed (f ∷ fs) = elim (Bool-cases (is_empty (trim_space f))) [
  | inl e ↦ rw e (trimmed-IsTrimmed fs)
  | inr e ↦ rw e ((trim_space_idem f, e), trimmed-IsTrimmed fs)
]

-- Every path of the list is trimmed and not "".
pub split_path_list-IsTrimmed : (raw : Text) → All IsTrimmed (split_path_list raw)
unfolding split_path_list
split_path_list-IsTrimmed raw = trimmed-IsTrimmed (fields_of raw)
