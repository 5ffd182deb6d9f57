-- ===== src/Cache/Room.antt =====
-- `dropOldest`: which file it removes.
pub mod Loop
use monitor_agent.Base.{
  ℕ, zero, suc, ◌+◌, ◌≤◌, ◌<◌, ◌≡◌, refl, sym, ap, ◌∙◌, Bool, true, false, Option, none, some, List,
  [], ◌∷◌, arith, length, All, Text, Bool-cases, Option-cases, ◌⊎◌, inl, inr,
}
use monitor_agent.Base.Int.{pos, ◌+ℤ◌, ◌-ℤ◌, leb_ℤ, int_laws, +ℤ_parts, eq_of_parts}
use monitor_agent.Cache.{
  File, Disk, Cache, skipped, remove, unlink, older, scan_oldest, drop_oldest, make_room,
}
use monitor_agent.Cache.Files.{
  weight, total, In, IsDistinct, total-remove, length-remove, remove-IsDistinct,
}

-- A file that `dropOldest` can choose.
abbrev pub IsCandidate : File → Type 0
IsCandidate f = (skipped f ≡ false) × (f.stat_ok ≡ true)

-- `best` is what a scan of the files may hold after them: a candidate that is not younger than any.
abbrev pub NotYounger : File → File → Type 0
NotYounger f g = IsCandidate g → f.mod_time ≤ g.mod_time

abbrev Good : Option File → Type 0
Good none = Unit
Good (some b) = IsCandidate b

older-Good : (best : Option File) (f : File) → Good best → Good (older best f)
unfolding older
older-Good none f h = ground arith
older-Good (some b) f h = ground arith

-- The scan ends with the best so far or with a file of the list, and it is a candidate.
scan-In :
    (best : Option File) (fs : List File) (f : File)
    → Good best
    → scan_oldest best fs ≡ some f
    → ((best ≡ some f) ⊎ In f fs) × IsCandidate f
unfolding scan_oldest
scan-In best [] f good h = (inl h, ground arith)
scan-In none (g ∷ gs) f good h = pick (scan-In (older none g) gs f (older-Good none g good) h)
  where
    pick :
        ((older none g ≡ some f) ⊎ In f gs) × IsCandidate f
        → ((none ≡ some f) ⊎ In f (g ∷ gs)) × IsCandidate f
    pick (inl e, c) = (inr (inl (unfold older in ground arith)), c)
    pick (inr m, c) = (inr (inr m), c)
scan-In (some b) (g ∷ gs) f good h =
    pick (scan-In (older (some b) g) gs f (older-Good (some b) g good) h)
  where
    pick :
        ((older (some b) g ≡ some f) ⊎ In f gs) × IsCandidate f
        → ((some b ≡ some f) ⊎ In f (g ∷ gs)) × IsCandidate f
    pick (inl e, c) = (unfold older in ground arith, c)
    pick (inr m, c) = (inr (inr m), c)

abbrev AtMost : File → Option File → Type 0
AtMost f none = Unit
AtMost f (some b) = f.mod_time ≤ b.mod_time

older-AtMost :
    (best : Option File) (g f : File) → AtMost f (older best g) → AtMost f best × NotYounger f g
unfolding older
older-AtMost none g f h = (tt, λ c. ground arith)
older-AtMost (some b) g f h = (ground arith, λ c. ground arith)

-- The chosen file is not younger than any candidate of the list.
scan_oldest_min :
    (best : Option File) (fs : List File) (f : File)
    → scan_oldest best fs ≡ some f
    → AtMost f best × All (NotYounger f) fs
unfolding scan_oldest
scan_oldest_min none [] f h = cc
scan_oldest_min (some b) [] f h = (ground arith, tt)
scan_oldest_min best (g ∷ gs) f h =
    let (a, rest) = scan_oldest_min (older best g) gs f h in
    let (b, c) = older-AtMost best g f a in (b, (c, rest))

-- The names are distinct, and `written` is the sum of the lengths of the files.
pub record IsAccounted (c : Cache) : Type 0 where
  pub distinct : IsDistinct c.files
  pub counted : c.written ≡ pos (total c.files)

-- Each removal of a file succeeds.
abbrev pub Removes : Disk → Type 0
Removes disk = (name : Text) → disk.removes name ≡ true

pub unlink-remove :
    (disk : Disk) (name : Text) (fs : List File)
    → Removes disk
    → unlink disk name fs ≡ remove name fs
unfolding unlink
unlink-remove disk name fs h = rw (h name)

-- What a removal keeps is kept where it fails.
pub unlink-closed {κ} :
    (P : List File → Type κ) (disk : Disk) (name : Text) (fs : List File)
    → P (remove name fs)
    → P fs
    → P (unlink disk name fs)
unfolding unlink
unlink-closed P disk name fs h k = elim (Bool-cases (disk.removes name)) [
  | inl e ↦ rw e h
  | inr e ↦ rw e k
]

-- The file that `drop_oldest` chooses, and takes from the cache.
pub record Dropped (c c' : Cache) : Type 0 where
  pub file : File
  pub present : In file c.files
  pub candidate : IsCandidate file
  pub oldest : All (NotYounger file) c.files
  pub files : c'.files ≡ unlink c.disk file.name c.files
  pub written : c'.written ≡ c.written -ℤ pos file.size
  pub max_bytes : c'.max_bytes ≡ c.max_bytes
  pub disk : c'.disk ≡ c.disk

scanned : (f : File) (fs : List File) → (none ≡ some f) ⊎ In f fs → In f fs
scanned f fs (inl e) = cc
scanned f fs (inr m) = m

abbrev without : Cache → File → Cache
without c f = record c { files = unlink c.disk f.name c.files; written = c.written -ℤ pos f.size }

drop_oldest-some :
    (c c' : Cache) (f : File)
    → scan_oldest none c.files ≡ some f
    → drop_oldest c ≡ some c'
    → without c f ≡ c'
unfolding drop_oldest
drop_oldest-some c c' f e h = ground arith

from_scan :
    (c c' : Cache) (o : Option File)
    → scan_oldest none c.files ≡ o
    → drop_oldest c ≡ some c'
    → Dropped c c'
from_scan c c' none e h = absurd (unfold drop_oldest in ground (arith, e))
from_scan c c' (some f) e h =
    let p = drop_oldest-some c c' f e h in
    let (m, k) = scan-In none c.files f tt e in
    record {
      file = f;
      present = scanned f c.files m;
      candidate = k;
      oldest = (scan_oldest_min none c.files f e).1;
      files = sym (ap (λ (x : Cache). x.files) p);
      written = sym (ap (λ (x : Cache). x.written) p);
      max_bytes = sym (ap (λ (x : Cache). x.max_bytes) p);
      disk = sym (ap (λ (x : Cache). x.disk) p);
    }

weight_of_candidate : (f : File) → IsCandidate f → weight f ≡ f.size
unfolding weight
weight_of_candidate f k = rw k.0

-- What `dropOldest` removes is a file of the directory, and no candidate is older than it.
pub drop_oldest-Dropped : (c c' : Cache) → drop_oldest c ≡ some c' → Dropped c c'
drop_oldest-Dropped c c' h = from_scan c c' (scan_oldest none c.files) refl h

pub Dropped-length :
    (c c' : Cache) → Removes c.disk → Dropped c c' → length c'.files + 1 ≡ length c.files
Dropped-length c c' w d =
    rw (d.files, unlink-remove c.disk d.file.name c.files w)
      (length-remove d.file c.files d.present)

pub Dropped-total :
    (c c' : Cache) → Removes c.disk → Dropped c c' → IsAccounted c → total c'.files ≤ total c.files
Dropped-total c c' w d a =
    rw (d.files, unlink-remove c.disk d.file.name c.files w)
      (omega (arith, total-remove d.file c.files a.distinct d.present))

pub Dropped-IsAccounted :
    (c c' : Cache) → Removes c.disk → Dropped c c' → IsAccounted c → IsAccounted c'
Dropped-IsAccounted c c' w d a = record {
  distinct =
      rw (d.files, unlink-remove c.disk d.file.name c.files w)
        (remove-IsDistinct d.file.name c.files a.distinct);
  counted =
      let sum = total-remove d.file c.files a.distinct d.present in
      rw (d.files, unlink-remove c.disk d.file.name c.files w, d.written, a.counted)
        (eq_of_parts _ _ (omega (int_laws, sum, weight_of_candidate d.file d.candidate)));
}

-- Where the scan finds nothing there is no candidate.
scan_none :
    (best : Option File) (fs : List File)
    → scan_oldest best fs ≡ none
    → (best ≡ none) × All (λ g. ¬ IsCandidate g) fs
unfolding scan_oldest
scan_none best [] h = (h, tt)
scan_none none (g ∷ gs) h =
    let (e, rest) = scan_none (older none g) gs h in
    (refl, (λ k. unfold older in ground arith, rest))
scan_none (some b) (g ∷ gs) h =
    let (e, rest) = scan_none (older (some b) g) gs h in absurd (unfold older in ground arith)

pub drop_oldest-none :
    (c : Cache) → c.disk.list_ok ≡ true → drop_oldest c ≡ none → All (λ g. ¬ IsCandidate g) c.files
drop_oldest-none c ok h = (scan_none none c.files (unfold drop_oldest in ground arith)).1
