-- ===== src/Cache/Sorted.antt =====
-- The directory sorted by name, and what its operations keep of it.
use monitor_agent.Base.{
  ℕ, zero, suc, ◌≡◌, Bool, true, some, List, [], ◌∷◌, ◌++◌, arith, length, All, Bool-cases,
  Option-cases, inl, inr, Text, text_eq, text_eq_iff, text_ltb, text_ltb-StrictOrder, leb,
}
use monitor_agent.Base.Int.{pos, ◌+ℤ◌, ◌-ℤ◌, leb_ℤ}
use monitor_agent.Cache.{
  File, Cache, Kind, skipped, remove, write_file, taken, unlink, drop_oldest, make_room, pop_loop,
}
use monitor_agent.Cache.Files.{remove-All}
use monitor_agent.Cache.Room.{drop_oldest-Dropped, unlink-closed}

abbrev pub Before : Text → File → Type 0
Before n g = text_ltb n g.name ≡ true

-- Each file stands before all that have a greater name.
abbrev pub IsSorted : List File → Type 0
IsSorted [] = Unit
IsSorted (f ∷ fs) = All (Before f.name) fs × IsSorted fs

pub before_trans : (a b c : Text) → text_ltb a b ≡ true → text_ltb b c ≡ true → text_ltb a c ≡ true
before_trans a b c h k = elim (text_ltb-StrictOrder.split_at a c b h) [
  | inl e ↦ e
  | inr e ↦ absurd (cc (text_ltb-StrictOrder.asym b c k))
]

pub Before-trans :
    (a b : Text) (fs : List File) → text_ltb a b ≡ true → All (Before b) fs → All (Before a) fs
Before-trans a b [] h k = tt
Before-trans a b (g ∷ gs) h (k, ks) = (before_trans a b g.name h k, Before-trans a b gs h ks)

pub remove-IsSorted : (name : Text) (fs : List File) → IsSorted fs → IsSorted (remove name fs)
unfolding remove
remove-IsSorted name [] h = tt
remove-IsSorted name (g ∷ gs) (h, hs) = elim (Bool-cases (text_eq g.name name)) [
  | inl e ↦ rw e hs
  | inr e ↦ rw e (remove-All (Before g.name) name gs h, remove-IsSorted name gs hs)
]

write_file-Before :
    (n : Text) (f : File) (fs : List File)
    → Before n f
    → All (Before n) fs
    → All (Before n) (write_file f fs)
unfolding write_file
write_file-Before n f [] e h = (e, tt)
write_file-Before n f (g ∷ gs) e (h, hs) = ground (arith, h, hs, write_file-Before n f gs e hs)

pub write_file-IsSorted : (f : File) (fs : List File) → IsSorted fs → IsSorted (write_file f fs)
unfolding write_file
write_file-IsSorted f [] h = (tt, tt)
write_file-IsSorted f (g ∷ gs) (h, hs) = elim (Bool-cases (text_eq f.name g.name)) [
  | inl e ↦ let p = (text_eq_iff f.name g.name).0 e in rw e (rw p h, hs)
  | inr e ↦ elim (Bool-cases (text_ltb f.name g.name)) [
    | inl l ↦ rw (e, l) ((l, Before-trans f.name g.name gs l h), (h, hs))
    | inr l ↦
        let k : Before g.name f =
          ground (arith, text_eq_iff f.name g.name, text_ltb-StrictOrder.total f.name g.name l) in
        rw (e, l) (write_file-Before g.name f gs k h, write_file-IsSorted f gs hs)
  ]
]

-- What holds of the files and is kept by removing one holds after the loops.
module _ {κ} (P : List File → Type κ)
    (keeps : (name : Text) (fs : List File) → P fs → P (remove name fs)) where
  pub make_room-closed :
      (fuel size : ℕ) (c c' : Cache) (fits : Bool)
      → make_room fuel size c ≡ some (c', fits)
      → P c.files
      → P c'.files
  unfolding make_room
  make_room-closed zero size c c' fits h p = absurd (cc)
  make_room-closed (suc fuel) size c c' fits h p =
      elim (Bool-cases (leb_ℤ (c.written +ℤ pos size) (pos c.max_bytes))) [
        | inl y ↦ let e : c.files ≡ c'.files = ground arith in rw (← e) p
        | inr n ↦ elim (Option-cases (drop_oldest c)) [
          | inl stuck ↦ let e : c.files ≡ c'.files = ground arith in rw (← e) p
          | inr (c1, e) ↦
              let d = drop_oldest-Dropped c c1 e in
              make_room-closed fuel size c1 c' fits (ground arith) (
                rw d.files
                  (unlink-closed P c.disk d.file.name c.files (keeps d.file.name c.files p) p))
        ]
      ]

  pub pop_loop-closed :
      (kind : Kind) (limit : ℕ) (fs : List File) (out : List Text) (c : Cache)
      → P c.files
      → P (pop_loop kind limit fs out c).1.files
  unfolding pop_loop
  pop_loop-closed kind limit [] out c p = p
  pop_loop-closed kind limit (f ∷ fs) out c p =
      let rest = pop_loop-closed kind limit fs out c p in
      elim (Bool-cases (skipped f)) [
        | inl s ↦ rw (s, pop_loop) rest
        | inr s ↦ elim (Bool-cases (leb limit (length out))) [
          | inl full ↦ rw (s, full, pop_loop) p
          | inr room ↦ elim (Option-cases (taken kind f)) [
            | inl no_body ↦ rw (s, room, no_body, pop_loop) rest
            | inr (body, t) ↦
                rw (s, room, t, pop_loop)
                  (pop_loop-closed kind limit fs (out ++ body ∷ [])
                    (record c {
                      files = unlink c.disk f.name c.files;
                      written = c.written -ℤ pos f.size;
                    })
                    (unlink-closed P c.disk f.name c.files (keeps f.name c.files p) p))
          ]
        ]
      ]
