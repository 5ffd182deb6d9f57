-- ===== src/Collector/Skills.antt =====
-- internal/collector/skills.go: the directories that are reported as skills.
pub mod Seen
use monitor_agent.Base.{
  Bool, true, false, not, ◌||◌, Option, none, some, List, [], ◌∷◌, ◌++◌, Text, lit, empty, is_empty,
  text_eq, trim_space, if◌then◌else◌,
}
use monitor_agent.Collector.Words.{any}

-- `SkillItem`; a time of the last use is never set.
pub record SkillItem : Type 0 where
  pub skill_name : Text
  pub skill_version : Text
  pub skill_path : Text
  pub skill_type : Text
  pub description : Text
  pub author : Text
  pub enabled : Bool

-- `parseSkill`
abbrev pub parse_skill : Text → Text → SkillItem
parse_skill path name = record {
  skill_name = name;
  skill_version = empty;
  skill_path = path;
  skill_type = lit "directory";
  description = empty;
  author = empty;
  enabled = true;
}

-- an entry of `os.ReadDir`
pub record DirEntry : Type 0 where
  pub name : Text
  pub is_dir : Bool

-- what the loops have so far: `skills`, and the paths that are `seen`
pub record Scan : Type 0 where
  pub skills : List SkillItem
  pub seen : List Text

abbrev pub is_seen : Text → List Text → Bool
is_seen path seen = any (λ p. text_eq p path) seen

-- `join_path` is `filepath.Join`, `read_dir` is `os.ReadDir`.
module _ (join_path : Text → Text → Text) (read_dir : Text → Option (List DirEntry)) where
  -- a round of the inner loop
  unfoldable pub scan_entry : Text → DirEntry → Scan → Scan
  scan_entry root e s =
      let path = join_path root e.name in
      if not e.is_dir
      then s
      else if is_seen path s.seen
      then s
      else record { skills = s.skills ++ parse_skill path e.name ∷ []; seen = path ∷ s.seen }

  unfoldable pub scan_entries : Text → List DirEntry → Scan → Scan
  unfolding scan_entry
  scan_entries root [] s = s
  scan_entries root (e ∷ es) s = scan_entries root es (scan_entry root e s)

  -- a round of the outer loop
  unfoldable pub scan_root : Text → Scan → Scan
  unfolding scan_entries
  scan_root path s = if is_empty (trim_space path) then s else elim (read_dir (trim_space path)) [
    | none ↦ s
    | some es ↦ scan_entries (trim_space path) es s
  ]

  unfoldable pub scan_roots : List Text → Scan → Scan
  unfolding scan_root
  scan_roots [] s = s
  scan_roots (p ∷ ps) s = scan_roots ps (scan_root p s)

  -- `ScanSkills`
  unfoldable pub scan_skills : List Text → List SkillItem
  unfolding scan_roots
  scan_skills paths = (scan_roots paths (record { skills = []; seen = [] })).skills
