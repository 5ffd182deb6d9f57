-- ===== src/Cache/Push.antt =====
-- `Push`: the accounts, the bound on the size, and which entries are accepted.
use monitor_agent.Base.{
  ℕ, ◌+◌, ◌≤◌, ◌<◌, ◌≡◌, ◌≢◌, refl, ap, ◌∙◌, Bool, true, false, Option, none, some, List, [], ◌∷◌,
  arith, All, Bool-cases, if◌then◌else◌, ◌⊎◌, inl, inr, lit, text_eq, Text,
}
use monitor_agent.Base.Int.{ℤ, pos, ◌+ℤ◌, int_laws, eq_of_parts}
use monitor_agent.Cache.{
  File, Cache, Kind, metrics, logs, Entry, cache_full, skipped, make_room, room_fuel, write_failure,
  Disk, write_file, save_index, store, push, file_name, kind_text, new_file,
}
use monitor_agent.Cache.Files.{
  weight, total, Unused, total-write_file, write_file-IsDistinct, remove-All,
}
use monitor_agent.Cache.Sorted.{make_room-closed}
use monitor_agent.Cache.Room.{IsAccounted, Removes, IsCandidate, drop_oldest-none}
use monitor_agent.Cache.Room.Loop.{make_room-Roomy}

make_room-All :
    (P : File → Type 0) (fuel size : ℕ) (c c' : Cache) (fits : Bool)
    → make_room fuel size c ≡ some (c', fits)
    → All P c.files
    → All P c'.files
make_room-All P = make_room-closed (All P) (remove-All P)

-- The write of a new file succeeds, or leaves nothing.
abbrev pub LeavesNothing : Disk → Type 0
LeavesNothing disk = (disk.write_ok ≡ true) ⊎ (disk.leftover ≡ none)

-- A file that `os.Stat` answers for, or one that the cache does not count.
abbrev pub IsReadable : File → Type 0
IsReadable f = (skipped f ≡ true) ⊎ (f.stat_ok ≡ true)

-- Every call on the directory succeeds.
pub record IsHealthy (c : Cache) : Type 0 where
  pub list_ok : c.disk.list_ok ≡ true
  pub write_ok : c.disk.write_ok ≡ true
  pub index_ok : c.disk.index_ok ≡ true
  pub removes : Removes c.disk
  pub readable : All IsReadable c.files

-- Files that can be listed and of which none is a candidate count for nothing.
total-none : (fs : List File) → All IsReadable fs → All (λ g. ¬ IsCandidate g) fs → total fs ≡ 0
unfolding total weight
total-none [] h k = refl
total-none (f ∷ fs) (h, hs) (k, ks) = elim (Bool-cases (skipped f)) [
  | inl e ↦ rw e (omega (arith, total-none fs hs ks))
  | inr e ↦ absurd (k (e, ground arith))
]

-- The bytes of the entry that `Push` writes.
abbrev pub entry_of : Kind → ℕ → Text → Entry
entry_of kind now raw = record { kind = kind_text kind; time = now; body = raw }

pub file_name-not_index :
    (kind : Kind) (now : ℕ) → text_eq (file_name kind now) (lit "index.json") ≡ false
unfolding lit text_eq
file_name-not_index metrics now = refl
file_name-not_index logs now = refl

module _ (kind : Kind) (now size : ℕ) (raw : Text) (c : Cache) where
  abbrev pub new_name : Text
  new_name = file_name kind now

  abbrev pub added : Option ℤ → Cache
  added i = record c {
    files = write_file (new_file kind now size raw) c.files;
    index = i;
    written = c.written +ℤ pos size;
  }

  total-added :
      (i : Option ℤ) → Unused new_name c.files → total (added i).files ≡ total c.files + size
  total-added i u =
      total-write_file (new_file kind now size raw) c.files u
      ∙ ap (λ (w : ℕ). total c.files + w)
          (unfold weight skipped in rw (file_name-not_index kind now))

  added-IsAccounted :
      (i : Option ℤ) → Unused new_name c.files → IsAccounted c → IsAccounted (added i)
  added-IsAccounted i u a = record {
    distinct = write_file-IsDistinct (new_file kind now size raw) c.files u a.distinct;
    counted = let t = total-added i u in rw (t, a.counted) (eq_of_parts _ _ (omega int_laws));
  }

  left_nothing : c.disk.leftover ≡ none → write_failure kind now raw c ≡ c
  unfolding write_failure
  left_nothing l = ground (arith, l)

  -- `store` leaves the cache alone, or adds the file and its bytes.
  pub store-cases :
      LeavesNothing c.disk
      → ((store kind now size raw c).0 ≡ c)
        ⊎ ((i : Option ℤ) × ((store kind now size raw c).0 ≡ added i))
  unfolding store save_index
  store-cases z = elim (Bool-cases c.disk.write_ok) [
    | inl w ↦ elim (Bool-cases c.disk.index_ok) [
      | inl x ↦ inr (some (c.written +ℤ pos size), rw (w, x))
      | inr x ↦ inr (c.disk.torn_index c.index, simp (w, x))
    ]
    | inr w ↦ elim z [ inl y ↦ absurd (cc) | inr l ↦ inl (simp (w, left_nothing l)) ]
  ]

  store-IsAccounted :
      LeavesNothing c.disk
      → Unused new_name c.files
      → IsAccounted c
      → IsAccounted (store kind now size raw c).0
  store-IsAccounted z u a = elim (store-cases z) [
    | inl e ↦ rw e a
    | inr (i, e) ↦ rw e (added-IsAccounted i u a)
  ]

  store-total :
      LeavesNothing c.disk
      → Unused new_name c.files
      → total (store kind now size raw c).0.files ≤ total c.files + size
  store-total z u = elim (store-cases z) [
    | inl e ↦ rw e (omega arith)
    | inr (i, e) ↦ rw e (omega (arith, total-added i u))
  ]

  store_ok : c.disk.write_ok ≡ true → c.disk.index_ok ≡ true → (store kind now size raw c).1 ≡ none
  unfolding store save_index
  store_ok w i = rw (w, i)

  max_bytes-store : (store kind now size raw c).0.max_bytes ≡ c.max_bytes
  unfolding store save_index write_failure
  max_bytes-store = ground arith

module _ (entry_size : Entry → ℕ) (kind : Kind) (now : ℕ) (raw : Text) (c : Cache) where
  abbrev pub size : ℕ
  size = entry_size (entry_of kind now raw)

  -- How `push` goes on, once its loop has ended in `c'`.
  pub push-eq :
      (c' : Cache) (fits : Bool)
      → make_room (room_fuel size c) size c ≡ some (c', fits)
      → push entry_size kind now (some raw) c
        ≡ (if fits then store kind now size raw c' else (c', some cache_full))
  unfolding push
  push-eq c' fits e = rw (e, push)

  -- If the accounts are right, no file has the new name, each removal succeeds, and the write of the
  -- new file succeeds or leaves nothing, then the accounts are right after `Push`, whatever it returns,
  -- and a cache within its bound stays within its bound.
  pub push-IsAccounted :
      IsAccounted c
      → Removes c.disk
      → LeavesNothing c.disk
      → Unused (file_name kind now) c.files
      → IsAccounted (push entry_size kind now (some raw) c).0
        × (total c.files ≤ c.max_bytes
            → total (push entry_size kind now (some raw) c).0.files
              ≤ (push entry_size kind now (some raw) c).0.max_bytes)
  push-IsAccounted a w z u =
      let (c', fits, e, r) = make_room-Roomy (room_fuel size c) size c w a (omega arith) in
      let u' = make_room-All (λ g. g.name ≢ file_name kind now) _ size c c' fits e u in
      elim (Bool-cases fits) [
        | inl y ↦
            let g : push entry_size kind now (some raw) c ≡ store kind now size raw c' =
              push-eq c' fits e ∙ (rw y) in
            rw g (
              store-IsAccounted kind now size raw c' (rw r.disk z) u' r.accounted,
              λ b. omega (
                arith,
                store-total kind now size raw c' (rw r.disk z) u',
                r.fit y,
                max_bytes-store kind now size raw c',
              ),
            )
        | inr n ↦
            let g : push entry_size kind now (some raw) c ≡ (c', some cache_full) =
              push-eq c' fits e ∙ (rw n) in
            rw g (r.accounted, λ b. omega (arith, r.less, r.max_bytes))
      ]

  pub push_admits :
      IsAccounted c
      → IsHealthy c
      → (size ≤ c.max_bytes → (push entry_size kind now (some raw) c).1 ≡ none)
        × (c.max_bytes < size
            → ((push entry_size kind now (some raw) c).1 ≡ some cache_full)
              × (total (push entry_size kind now (some raw) c).0.files ≡ 0))
  push_admits a k =
      let (c', fits, e, r) = make_room-Roomy (room_fuel size c) size c k.removes a (omega arith) in
      let s = make_room-All IsReadable _ size c c' fits e k.readable in
      elim (Bool-cases fits) [
        | inl y ↦
            let g : push entry_size kind now (some raw) c ≡ store kind now size raw c' =
              push-eq c' fits e ∙ (rw y) in
            rw g (
              λ _. store_ok kind now size raw c' (rw r.disk k.write_ok) (rw r.disk k.index_ok),
              λ big. absurd (omega (arith, r.fit y, r.max_bytes)),
            )
        | inr n ↦
            let g : push entry_size kind now (some raw) c ≡ (c', some cache_full) =
              push-eq c' fits e ∙ (rw n) in
            let (stuck, over) = r.full n in
            let zero_left =
              total-none c'.files s (drop_oldest-none c' (rw r.disk k.list_ok) stuck) in
            rw g (λ fit. absurd (omega (arith, r.max_bytes)), λ _. (refl, zero_left))
      ]
