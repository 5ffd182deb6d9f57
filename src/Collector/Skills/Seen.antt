-- ===== src/Collector/Skills/Seen.antt =====
-- Every directory below a root is reported, and once.
use monitor_agent.Base.{
  ℕ, ◌+◌, ◌≡◌, refl, sym, ap, ◌∙◌, arith, Bool, true, false, not, ◌&&◌, ◌||◌, Option, none, some,
  List, [], ◌∷◌, ◌++◌, Option-cases, Bool-cases, inl, inr, ◌⊎◌, Text, is_empty, text_eq,
  text_eq_iff, trim_space, if◌then◌else◌,
}
use monitor_agent.Collector.Words.{any}
use monitor_agent.Collector.Skills.{
  SkillItem, parse_skill, DirEntry, Scan, is_seen, scan_entry, scan_entries, scan_root, scan_roots,
  scan_skills,
}

-- how often a path is reported
unfoldable pub count : Text → List SkillItem → ℕ
count q [] = 0
count q (s ∷ ss) = (if text_eq s.skill_path q then 1 else 0) + count q ss

count-snoc :
    (q : Text) (ss : List SkillItem) (s : SkillItem)
    → count q (ss ++ s ∷ []) ≡ count q ss + (if text_eq s.skill_path q then 1 else 0)
unfolding count
count-snoc q [] s = omega arith
count-snoc q (x ∷ ss) s = omega (arith, count-snoc q ss s)

or_assoc : (a b c : Bool) → ((a || b) || c) ≡ (a || (b || c))
or_assoc true b c = refl
or_assoc false b c = refl

or_false : (a : Bool) → (a || false) ≡ a
or_false true = refl
or_false false = refl

or_comm : (a b : Bool) → (a || b) ≡ (b || a)
or_comm true true = refl
or_comm true false = refl
or_comm false true = refl
or_comm false false = refl

module _ (join_path : Text → Text → Text) (read_dir : Text → Option (List DirEntry))
    (q : Text) where
  -- the entry below the root is a directory, and has the path
  abbrev pub is_entry : Text → DirEntry → Bool
  is_entry root e = e.is_dir && text_eq (join_path root e.name) q

  -- the path is that of a directory that is listed below the root
  abbrev pub is_below : Text → Bool
  is_below path =
      not (is_empty (trim_space path)) && elim (read_dir (trim_space path)) as (λ o. Bool) [
        | none ↦ false
        | some es ↦ any (is_entry (trim_space path)) es
      ]

  -- Each path is counted once if it has been seen.
  record Counted (before after : Scan) (found : Bool) : Type 0 where
    once :
        count q before.skills ≡ (if is_seen q before.seen then 1 else 0)
        → count q after.skills ≡ (if is_seen q after.seen then 1 else 0)
    seen : is_seen q after.seen ≡ (is_seen q before.seen || found)

  Counted-none : (s : Scan) → Counted s s false
  Counted-none s = record { once = λ h. h; seen = sym (or_false (is_seen q s.seen)) }

  Counted-trans : (r s t : Scan) (a b : Bool) → Counted r s a → Counted s t b → Counted r t (a || b)
  Counted-trans r s t a b h k = record {
    once = λ c. k.once (h.once c);
    seen = k.seen ∙ ap (λ x. x || b) h.seen ∙ or_assoc (is_seen q r.seen) a b;
  }

  -- a path that has been seen changes nothing
  passed : (path : Text) (s : Scan) → is_seen path s.seen ≡ true → Counted s s (text_eq path q)
  passed path s y = record { once = λ c. c; seen = same (Bool-cases (text_eq path q)) }
    where
      same :
          (text_eq path q ≡ true) ⊎ (text_eq path q ≡ false)
          → is_seen q s.seen ≡ (is_seen q s.seen || text_eq path q)
      same (inl t) =
          let z : is_seen q s.seen ≡ true = rw ((text_eq_iff path q).0 t) at y in rw (t, z) refl
      same (inr f) = rw f (sym (or_false (is_seen q s.seen)))

  -- a new path
  abbrev added : Text → Text → Scan → Scan
  added path name s = record {
    skills = s.skills ++ parse_skill path name ∷ [];
    seen = path ∷ s.seen;
  }

  added-Counted :
      (path name : Text) (s : Scan)
      → is_seen path s.seen ≡ false
      → Counted s (added path name s) (text_eq path q)
  added-Counted path name s n = record {
    once = λ c. once_more (Bool-cases (text_eq path q)) c;
    seen = or_comm (text_eq path q) (is_seen q s.seen);
  }
    where
      once_more :
          (text_eq path q ≡ true) ⊎ (text_eq path q ≡ false)
          → count q s.skills ≡ (if is_seen q s.seen then 1 else 0)
          → count q (s.skills ++ parse_skill path name ∷ [])
            ≡ (if text_eq path q || is_seen q s.seen then 1 else 0)
      once_more (inl t) c =
          let z : is_seen q s.seen ≡ false = rw ((text_eq_iff path q).0 t) at n in
          let w : count q s.skills ≡ 0 = c ∙ (rw z refl) in
          count-snoc q s.skills (parse_skill path name) ∙ (rw (t, w) refl)
      once_more (inr f) c =
          count-snoc q s.skills (parse_skill path name) ∙ (rw f (omega (arith, c)))

  entry-Counted :
      (root : Text) (e : DirEntry) (s : Scan)
      → Counted s (scan_entry join_path read_dir root e s) (is_entry root e)
  unfolding scan_entry
  entry-Counted root e s = elim (Bool-cases e.is_dir) [
    | inl d ↦ elim (Bool-cases (is_seen (join_path root e.name) s.seen)) [
      | inl y ↦ rw (d, y) (passed (join_path root e.name) s y)
      | inr n ↦ rw (d, n) (added-Counted (join_path root e.name) e.name s n)
    ]
    | inr d ↦ rw d (Counted-none s)
  ]

  entries-Counted :
      (root : Text) (es : List DirEntry) (s : Scan)
      → Counted s (scan_entries join_path read_dir root es s) (any (is_entry root) es)
  unfolding scan_entries
  entries-Counted root [] s = Counted-none s
  entries-Counted root (e ∷ es) s =
      let t = scan_entry join_path read_dir root e s in
      Counted-trans s t (scan_entries join_path read_dir root es t) (is_entry root e)
        (any (is_entry root) es) (entry-Counted root e s) (entries-Counted root es t)

  root-Counted :
      (path : Text) (s : Scan) → Counted s (scan_root join_path read_dir path s) (is_below path)
  unfolding scan_root
  root-Counted path s = elim (Bool-cases (is_empty (trim_space path))) [
    | inl b ↦ rw b (Counted-none s)
    | inr b ↦ elim (Option-cases (read_dir (trim_space path))) [
      | inl e ↦ rw (b, e) (Counted-none s)
      | inr (es, e) ↦ rw (b, e) (entries-Counted (trim_space path) es s)
    ]
  ]

  roots-Counted :
      (paths : List Text) (s : Scan)
      → Counted s (scan_roots join_path read_dir paths s) (any is_below paths)
  unfolding scan_roots
  roots-Counted [] s = Counted-none s
  roots-Counted (p ∷ ps) s =
      let t = scan_root join_path read_dir p s in
      Counted-trans s t (scan_roots join_path read_dir ps t) (is_below p) (any is_below ps)
        (root-Counted p s) (roots-Counted ps t)

  -- A path is reported once if it is that of a directory listed below one of the roots that are not
  -- blank, and not at all otherwise.
  pub count-scan_skills :
      (paths : List Text)
      → count q (scan_skills join_path read_dir paths) ≡ (if any is_below paths then 1 else 0)
  unfolding scan_skills
  count-scan_skills paths =
      let c = roots-Counted paths (record { skills = []; seen = [] }) in
      c.once (unfold count in refl) ∙ ap (λ (b : Bool). if b then 1 else 0) c.seen
