-- ===== src/OpenclawCli/Resolve.antt =====
-- Which candidate `resolveExecutable` takes.
use monitor_agent.Base.{
  ◌≡◌, refl, ap, true, false, List, [], ◌∷◌, ◌++◌, All, Bool-cases, ◌⊎◌, inl, inr, Text,
}
use monitor_agent.OpenclawCli.{Machine, candidates, is_usable, first_usable, resolve_executable}

module _ (m : Machine) where
  abbrev pub IsUnusable : Text → Type 0
  IsUnusable path = is_usable m path ≡ false

  -- The first usable candidate, or the name itself where none is usable.
  abbrev pub First : List Text → Text → Text → Type 0
  First cs binary r =
      ((before : List Text) × (behind : List Text) × (cs ≡ before ++ r ∷ behind)
        × All IsUnusable before
        × (is_usable m r ≡ true))
      ⊎ (All IsUnusable cs × (r ≡ binary))

  taken_first :
      (c : Text) (cs : List Text) (binary : Text)
      → is_usable m c ≡ true
      → first_usable m (c ∷ cs) binary ≡ c
  unfolding first_usable
  taken_first c cs binary y = rw y refl

  taken_later :
      (c : Text) (cs : List Text) (binary : Text)
      → is_usable m c ≡ false
      → first_usable m (c ∷ cs) binary ≡ first_usable m cs binary
  unfolding first_usable
  taken_later c cs binary n = rw n refl

  First-later :
      (c : Text) (cs : List Text) (binary r : Text)
      → is_usable m c ≡ false
      → First cs binary r
      → First (c ∷ cs) binary r
  First-later c cs binary r n (inl (before, behind, e, u, y)) =
      inl (c ∷ before, behind, ap (λ l. c ∷ l) e, (n, u), y)
  First-later c cs binary r n (inr (u, e)) = inr ((n, u), e)

  first_usable-First : (cs : List Text) (binary : Text) → First cs binary (first_usable m cs binary)
  first_usable-First [] binary = unfold first_usable in inr (tt, refl)
  first_usable-First (c ∷ cs) binary =
      let rest = first_usable-First cs binary in
      elim (Bool-cases (is_usable m c)) [
        | inl y ↦ rw (taken_first c cs binary y) (inl ([], cs, refl, tt, y))
        | inr n ↦
            rw (taken_later c cs binary n)
              (First-later c cs binary (first_usable m cs binary) n rest)
      ]

  -- The executable is the first candidate that is a file, in the order of the environment, the search
  -- path, the home directory and the fixed places; it is the bare name where no candidate is a file.
  pub resolve_executable-First :
      (key binary : Text) (rels fixed : List Text)
      → First
          (candidates m key binary rels fixed)
          binary
          (resolve_executable m key binary rels fixed)
  unfolding resolve_executable
  resolve_executable-First key binary rels fixed =
      first_usable-First (candidates m key binary rels fixed) binary
