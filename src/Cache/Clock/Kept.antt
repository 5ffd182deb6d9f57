-- ===== src/Cache/Clock/Kept.antt =====
-- What holds of every file, and the settings of the cache, through `Push` and `popKind`.
use monitor_agent.Base.{
  ℕ, ◌≡◌, refl, ◌∙◌, arith, true, some, List, [], ◌∷◌, ◌++◌, length, All, Bool-cases, Option-cases,
  inl, inr, Text, text_eq, text_ltb, leb,
}
use monitor_agent.Base.Int.{pos, ◌-ℤ◌}
use monitor_agent.Cache.{
  File, Cache, Kind, Entry, skipped, unlink, write_file, taken, store, push, pop_loop, pop_kind,
  save_index, new_file, room_fuel,
}
use monitor_agent.Cache.Files.{remove-All}
use monitor_agent.Cache.Room.{IsAccounted, Removes}
use monitor_agent.Cache.Room.Loop.{make_room-Roomy}
use monitor_agent.Cache.Sorted.{make_room-closed, pop_loop-closed}
use monitor_agent.Cache.Push.{LeavesNothing, entry_of, push-eq, store-cases}
use monitor_agent.Cache.Pop.{listed, files-save_index}

-- The bound and the disk are those of before, and `P` holds of each file.
pub record IsKept (P : File → Type 0) (c c' : Cache) : Type 0 where
  pub max_bytes : c'.max_bytes ≡ c.max_bytes
  pub disk : c'.disk ≡ c.disk
  pub files : All P c'.files

write_file-All :
    (P : File → Type 0) (f : File) (fs : List File) → P f → All P fs → All P (write_file f fs)
unfolding write_file
write_file-All P f [] p h = (p, tt)
write_file-All P f (g ∷ gs) p (h, hs) = elim (Bool-cases (text_eq f.name g.name)) [
  | inl e ↦ rw e (p, hs)
  | inr e ↦ elim (Bool-cases (text_ltb f.name g.name)) [
    | inl l ↦ rw (e, l) (p, (h, hs))
    | inr l ↦ rw (e, l) (h, write_file-All P f gs p hs)
  ]
]

module _ (P : File → Type 0) where
  store-IsKept :
      (kind : Kind) (now size : ℕ) (raw : Text) (c : Cache)
      → LeavesNothing c.disk
      → P (new_file kind now size raw)
      → All P c.files
      → IsKept P c (store kind now size raw c).0
  store-IsKept kind now size raw c z p h = elim (store-cases kind now size raw c z) [
    | inl e ↦ rw e (record { max_bytes = refl; disk = refl; files = h })
    | inr (i, e) ↦
        rw e (record { max_bytes = refl; disk = refl; files = write_file-All P _ c.files p h })
  ]

  pub push-IsKept :
      (entry_size : Entry → ℕ) (kind : Kind) (now : ℕ) (raw : Text) (c : Cache)
      → IsAccounted c
      → Removes c.disk
      → LeavesNothing c.disk
      → P (new_file kind now (entry_size (entry_of kind now raw)) raw)
      → All P c.files
      → IsKept P c (push entry_size kind now (some raw) c).0
  push-IsKept entry_size kind now raw c a w z p h =
      let size = entry_size (entry_of kind now raw) in
      let (c1, fits, e, r) = make_room-Roomy (room_fuel size c) size c w a (omega arith) in
      let h1 = make_room-closed (All P) (remove-All P) _ size c c1 fits e h in
      let k = store-IsKept kind now size raw c1 (rw r.disk z) p h1 in
      rw (push-eq entry_size kind now raw c c1 fits e) (elim (Bool-cases fits) [
        | inl y ↦ rw y (record {
          max_bytes = k.max_bytes ∙ r.max_bytes;
          disk = k.disk ∙ r.disk;
          files = k.files;
        })
        | inr n ↦ rw n (record { max_bytes = r.max_bytes; disk = r.disk; files = h1 })
      ])

  pop_loop-settings :
      (kind : Kind) (limit : ℕ) (fs : List File) (out : List Text) (c : Cache)
      → ((pop_loop kind limit fs out c).1.max_bytes ≡ c.max_bytes)
        × ((pop_loop kind limit fs out c).1.disk ≡ c.disk)
  unfolding pop_loop
  pop_loop-settings kind limit [] out c = (refl, refl)
  pop_loop-settings kind limit (f ∷ fs) out c =
      let rest = pop_loop-settings kind limit fs out c in
      elim (Bool-cases (skipped f)) [
        | inl s ↦ rw (s, pop_loop) rest
        | inr s ↦ elim (Bool-cases (leb limit (length out))) [
          | inl full ↦ rw (s, full, pop_loop) (refl, refl)
          | inr room ↦ elim (Option-cases (taken kind f)) [
            | inl no_body ↦ rw (s, room, no_body, pop_loop) rest
            | inr (body, t) ↦
                rw (s, room, t, pop_loop)
                  (pop_loop-settings kind limit fs (out ++ body ∷ []) (record c {
                    files = unlink c.disk f.name c.files;
                    written = c.written -ℤ pos f.size;
                  }))
          ]
        ]
      ]

  save_index-settings :
      (c : Cache) → ((save_index c).0.max_bytes ≡ c.max_bytes) × ((save_index c).0.disk ≡ c.disk)
  unfolding save_index
  save_index-settings c = ground arith

  pub pop_kind-IsKept :
      (kind : Kind) (limit : ℕ) (c : Cache)
      → c.disk.list_ok ≡ true
      → All P c.files
      → IsKept P c (pop_kind kind limit c).1
  pop_kind-IsKept kind limit c ok h =
      let c1 = (pop_loop kind limit c.files [] c).1 in
      let (m, d) = pop_loop-settings kind limit c.files [] c in
      let (m1, d1) = save_index-settings c1 in
      rw (listed kind limit c ok) (record {
        max_bytes = m1 ∙ m;
        disk = d1 ∙ d;
        files =
            rw (files-save_index c1)
              (pop_loop-closed (All P) (remove-All P) kind limit c.files [] c h);
      })
