-- ===== src/Cache/Files.antt =====
-- The files of the cache directory: their sizes, and what writing and removing one does to them.
use monitor_agent.Base.{
  ℕ, ◌+◌, ◌≡◌, ◌≢◌, ◌∙◌, sym, ap, List, [], ◌∷◌, Text, text_eq, text_eq_iff, text_eq_refl, length,
  All, arith, if◌then◌else◌, Bool-cases, ◌⊎◌, inl, inr,
}
use monitor_agent.Cache.{File, skipped, text_ltb, write_file, remove}

-- The bytes that a file counts for.
unfoldable pub weight : File → ℕ
weight f = if skipped f then 0 else f.size

unfoldable pub total : List File → ℕ
total [] = 0
total (f ∷ fs) = weight f + total fs

abbrev pub In : File → List File → Type 0
In f [] = ⊥
In f (g ∷ gs) = (f ≡ g) ⊎ In f gs

-- No file of the list has this name.
abbrev pub Unused : Text → List File → Type 0
Unused name = All (λ g. g.name ≢ name)

abbrev pub IsDistinct : List File → Type 0
IsDistinct [] = Unit
IsDistinct (f ∷ fs) = Unused f.name fs × IsDistinct fs

pub ne_of_Unused :
    (name : Text) (f : File) (fs : List File) → Unused name fs → In f fs → f.name ≢ name
ne_of_Unused name f [] h m = elim m [ ]
ne_of_Unused name f (g ∷ gs) (h, hs) (inl e) = λ p. h (ap (λ (x : File). x.name) (sym e) ∙ p)
ne_of_Unused name f (g ∷ gs) (h, hs) (inr m) = ne_of_Unused name f gs hs m

pub total-remove :
    (f : File) (fs : List File)
    → IsDistinct fs
    → In f fs
    → total (remove f.name fs) + weight f ≡ total fs
unfolding total remove
total-remove f [] h m = elim m [ ]
total-remove f (g ∷ gs) (h, hs) (inl e) = rw (← e) (ground (arith, text_eq_refl f.name))
total-remove f (g ∷ gs) (h, hs) (inr m) =
    ground (arith, text_eq_iff g.name f.name, ne_of_Unused g.name f gs h m, total-remove f gs hs m)

pub length-remove :
    (f : File) (fs : List File) → In f fs → length (remove f.name fs) + 1 ≡ length fs
unfolding remove
length-remove f [] m = elim m [ ]
length-remove f (g ∷ gs) (inl e) = rw (← e) (ground (arith, text_eq_refl f.name))
length-remove f (g ∷ gs) (inr m) = ground (arith, length-remove f gs m)

pub remove-Unused : (n name : Text) (fs : List File) → Unused n fs → Unused n (remove name fs)
unfolding remove
remove-Unused n name [] h = tt
remove-Unused n name (g ∷ gs) (h, hs) = elim (Bool-cases (text_eq g.name name)) [
  | inl e ↦ rw e hs
  | inr e ↦ rw e (h, remove-Unused n name gs hs)
]

pub remove-IsDistinct : (name : Text) (fs : List File) → IsDistinct fs → IsDistinct (remove name fs)
unfolding remove
remove-IsDistinct name [] h = tt
remove-IsDistinct name (g ∷ gs) (h, hs) = elim (Bool-cases (text_eq g.name name)) [
  | inl e ↦ rw e hs
  | inr e ↦ rw e (remove-Unused g.name name gs h, remove-IsDistinct name gs hs)
]

pub total-write_file :
    (f : File) (fs : List File) → Unused f.name fs → total (write_file f fs) ≡ total fs + weight f
unfolding total write_file
total-write_file f [] h = omega arith
total-write_file f (g ∷ gs) (h, hs) =
    ground (arith, text_eq_iff f.name g.name, total-write_file f gs hs)

pub remove-All :
    (P : File → Type 0) (name : Text) (fs : List File) → All P fs → All P (remove name fs)
unfolding remove
remove-All P name [] h = tt
remove-All P name (g ∷ gs) (h, hs) = elim (Bool-cases (text_eq g.name name)) [
  | inl e ↦ rw e hs
  | inr e ↦ rw e (h, remove-All P name gs hs)
]

write_file-Unused :
    (n : Text) (f : File) (fs : List File) → f.name ≢ n → Unused n fs → Unused n (write_file f fs)
unfolding write_file
write_file-Unused n f [] e h = (e, tt)
write_file-Unused n f (g ∷ gs) e (h, hs) = ground (arith, h, hs, write_file-Unused n f gs e hs)

pub write_file-IsDistinct :
    (f : File) (fs : List File) → Unused f.name fs → IsDistinct fs → IsDistinct (write_file f fs)
unfolding write_file
write_file-IsDistinct f [] u d = (tt, tt)
write_file-IsDistinct f (g ∷ gs) (u, us) (d, ds) = elim (Bool-cases (text_eq f.name g.name)) [
  | inl e ↦ absurd (u (sym ((text_eq_iff f.name g.name).0 e)))
  | inr e ↦ elim (Bool-cases (text_ltb f.name g.name)) [
    | inl l ↦ rw (e, l) ((u, us), (d, ds))
    | inr l ↦
        rw (e, l)
          (write_file-Unused g.name f gs (λ p. u (sym p)) d, write_file-IsDistinct f gs us ds)
  ]
]
