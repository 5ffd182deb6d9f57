-- ===== src/Cache/Refinement.antt =====
-- `Push` and `popKind` refine operations on one queue of bodies for each kind.
pub mod Runs
use mathlib.Core.List.{Sublist}
use mathlib.Core.List.Sublist
use monitor_agent.Base.{
  ℕ, zero, suc, ◌+◌, ◌≤◌, ◌<◌, ◌≡◌, ◌≢◌, refl, sym, ap, ◌∙◌, Bool, true, Option, none, some, List,
  [], ◌∷◌, ◌++◌, arith, length, All, Bool-cases, inl, inr, Text, take, drop, leb,
}
use monitor_agent.Base.Int.{pos, ◌+ℤ◌, leb_ℤ, +ℤ_parts}
use monitor_agent.Cache.{
  File, Disk, Cache, Kind, Entry, PushError, cache_full, skipped, write_failure, write_file,
  make_room, room_fuel, pop_loop, store, push, pop_kind, file_name, new_file, save_index,
}
use monitor_agent.Cache.Files.{Unused, total, remove-All}
use monitor_agent.Cache.Room.{IsAccounted}
use monitor_agent.Cache.Room.Loop.{make_room-Roomy}
use monitor_agent.Cache.Bodies.{bodies, taken_once}
use monitor_agent.Cache.Push.{
  IsHealthy, entry_of, push-eq, push-IsAccounted, push_admits, file_name-not_index,
}
use monitor_agent.Cache.Pop.{pop_kind-takes, listed, files-save_index}
use monitor_agent.Cache.Sorted.{
  IsSorted, remove-IsSorted, write_file-IsSorted, make_room-closed, pop_loop-closed,
}
use monitor_agent.Cache.Queue.{
  Earlier, bodies-write_file, bodies-write_other, remove-Sublist, taken-new_file,
}

-- The abstract cache: the bodies of each kind, the oldest first.
abbrev pub Queues : Type 0
Queues = Kind → List Text

pub data Op : Type 0 where
  put : Kind → ℕ → Text → Op
  take_out : Kind → ℕ → Op

pub data Answer : Type 0 where
  stored : Answer
  refused : PushError → Answer
  given : Option (List Text) → Answer

-- What the operations mean for the queues. To put a body in may cost older bodies of either kind,
-- unless it fits.
pub data QueueStep (fits : Bool) (q : Queues) : Op → Answer → Queues → Type 0 where
  put_step :
      {kind : Kind} {now : ℕ} {raw : Text} {q' : Queues} (kept : Queues)
      → ((k : Kind) → Sublist (kept k) (q k))
      → (fits ≡ true → (k : Kind) → kept k ≡ q k)
      → q' kind ≡ kept kind ++ raw ∷ []
      → ((other : Kind) → other ≢ kind → q' other ≡ kept other)
      → QueueStep fits q (put kind now raw) stored q'
  take_step :
      {kind : Kind} {limit : ℕ} {q' : Queues}
      → q' kind ≡ drop limit (q kind)
      → ((other : Kind) → other ≢ kind → q' other ≡ q other)
      → QueueStep fits q (take_out kind limit) (given (some (take limit (q kind)))) q'

-- The cache holds these queues: its names are sorted and its accounts are right.
pub record Holds (c : Cache) (q : Queues) : Type 0 where
  pub accounted : IsAccounted c
  pub sorted : IsSorted c.files
  pub bodies_are : (k : Kind) → bodies k c.files ≡ q k

abbrev pub answer_of : Option PushError → Answer
answer_of none = stored
answer_of (some e) = refused e

module _ (entry_size : Entry → ℕ) where
  abbrev pub run_op : Op → Cache → Answer × Cache
  run_op (put kind now raw) c =
      let r = push entry_size kind now (some raw) c in (answer_of r.1, r.0)
  run_op (take_out kind limit) c = let r = pop_kind kind limit c in (given r.0, r.1)

  -- An entry that is no longer than the bound, under a name that is new and behind those of its kind.
  abbrev pub Admissible : Op → Cache → Type 0
  Admissible (put kind now raw) c =
      (entry_size (entry_of kind now raw) ≤ c.max_bytes)
      × Unused (file_name kind now) c.files
      × All (Earlier kind (file_name kind now)) c.files
  Admissible (take_out kind limit) c = Unit

  abbrev pub fits_in : Op → Cache → Bool
  fits_in (put kind now raw) c =
      leb (total c.files + entry_size (entry_of kind now raw)) c.max_bytes
  fits_in (take_out kind limit) c = true

make_room_fits :
    (fuel size : ℕ) (c : Cache)
    → IsAccounted c
    → leb (total c.files + size) c.max_bytes ≡ true
    → 0 < fuel
    → make_room fuel size c ≡ some (c, true)
unfolding make_room
make_room_fits zero size c a h z = elim z [ ]
make_room_fits (suc fuel) size c a h z =
    let e : leb_ℤ (c.written +ℤ pos size) (pos c.max_bytes) ≡ true =
      (let p = a.counted in ground (arith, +ℤ_parts c.written (pos size))) in
    rw e refl

store_written :
    (kind : Kind) (now size : ℕ) (raw : Text) (c : Cache)
    → c.disk.write_ok ≡ true
    → (store kind now size raw c).0.files ≡ write_file (new_file kind now size raw) c.files
unfolding store save_index write_failure
store_written kind now size raw c w = ground (arith, w)

-- What `Push` makes of the files, if it ends well.
record Put (kind : Kind) (raw : Text) (fits : Bool) (c c' : Cache) : Type 0 where
  kept : List File
  sublist : (k : Kind) → Sublist (bodies k kept) (bodies k c.files)
  lossless : fits ≡ true → kept ≡ c.files
  added_one : bodies kind c'.files ≡ bodies kind kept ++ raw ∷ []
  others : (other : Kind) → other ≢ kind → bodies other c'.files ≡ bodies other kept
  sorted : IsSorted c'.files

module _ (entry_size : Entry → ℕ) (kind : Kind) (now : ℕ) (raw : Text) (c : Cache) where
  stored-Put :
      (c1 : Cache)
      → make_room
          (room_fuel (entry_size (entry_of kind now raw)) c)
          (entry_size (entry_of kind now raw))
          c
        ≡ some (c1, true)
      → IsHealthy c
      → c1.disk ≡ c.disk
      → IsAccounted c
      → IsSorted c.files
      → Admissible entry_size (put kind now raw) c
      → Put kind raw
          (fits_in entry_size (put kind now raw) c)
          c
          (push entry_size kind now (some raw) c).0
  stored-Put c1 e k d a o (s, u, l) =
      let size = entry_size (entry_of kind now raw) in
      let f = new_file kind now size raw in
      let files_are : (push entry_size kind now (some raw) c).0.files ≡ write_file f c1.files =
        ap (λ (r : Cache × Option PushError). r.0.files)
          (push-eq entry_size kind now raw c c1 true e)
        ∙ store_written kind now size raw c1 (ap (λ (x : Disk). x.write_ok) d ∙ k.write_ok) in
      let u1 =
        make_room-closed (Unused f.name) (remove-All (λ g. g.name ≢ f.name)) _ size c c1 true e u in
      let l1 =
        make_room-closed (All (Earlier kind f.name)) (remove-All (Earlier kind f.name)) _ size c c1
          true e l in
      let o1 = make_room-closed IsSorted remove-IsSorted _ size c c1 true e o in
      let body = taken-new_file kind now size raw in
      record {
        kept = c1.files;
        sublist = λ kind1.
            make_room-closed (λ fs. Sublist (bodies kind1 fs) (bodies kind1 c.files))
              (λ name fs h. Sublist.trans (remove-Sublist kind1 name fs) h) _ size c c1 true e
              (Sublist.refl _);
        lossless = λ h.
            ap (λ (r : Option (Cache × Bool)). elim r [ none ↦ c1.files | some x ↦ x.0.files ])
              (sym e ∙ make_room_fits (room_fuel size c) size c a h (omega arith));
        added_one = rw files_are (
            bodies-write_file kind f raw c1.files (unfold skipped in file_name-not_index kind now)
              body o1 u1 l1);
        others = λ other n.
            rw files_are
              (bodies-write_other other f c1.files (taken_once kind other f raw n body) u1);
        sorted = rw files_are (write_file-IsSorted f c1.files o1);
      }

  push-Put :
      IsHealthy c
      → IsAccounted c
      → IsSorted c.files
      → Admissible entry_size (put kind now raw) c
      → Put kind raw
          (fits_in entry_size (put kind now raw) c)
          c
          (push entry_size kind now (some raw) c).0
  push-Put k a o (s, u, l) =
      let size = entry_size (entry_of kind now raw) in
      let (c1, fits, e, r) = make_room-Roomy (room_fuel size c) size c k.removes a (omega arith) in
      elim (Bool-cases fits) [
        | inl y ↦ stored-Put c1 (e ∙ ap (λ (b : Bool). some (c1, b)) y) k r.disk a o (s, u, l)
        | inr n ↦
            let full : push entry_size kind now (some raw) c ≡ (c1, some cache_full) =
              push-eq entry_size kind now raw c c1 fits e ∙ (rw n refl) in
            let well = (push_admits entry_size kind now raw c a k).0 s in
            absurd (cc (ap (λ (x : Cache × Option PushError). x.1) full))
      ]

pop_IsSorted :
    (kind : Kind) (limit : ℕ) (c : Cache)
    → c.disk.list_ok ≡ true
    → IsSorted c.files
    → IsSorted (pop_kind kind limit c).1.files
pop_IsSorted kind limit c ok o =
    rw (listed kind limit c ok, files-save_index (pop_loop kind limit c.files [] c).1)
      (pop_loop-closed IsSorted remove-IsSorted kind limit c.files [] c o)

-- If the cache holds some queues, its directory works and the operation is admissible, the cache holds
-- afterwards queues that a step of the specification reaches with the same answer.
pub run_op-QueueStep :
    (entry_size : Entry → ℕ) (op : Op) (c : Cache) (q : Queues)
    → Holds c q
    → IsHealthy c
    → Admissible entry_size op c
    → (q' : Queues) × QueueStep (fits_in entry_size op c) q op (run_op entry_size op c).0 q'
      × Holds (run_op entry_size op c).1 q'
run_op-QueueStep entry_size (put kind now raw) c q h k (s, u, l) =
    let c' = (push entry_size kind now (some raw) c).0 in
    let p = push-Put entry_size kind now raw c k h.accounted h.sorted (s, u, l) in
    (
      λ kind1. bodies kind1 c'.files,
      rw ((push_admits entry_size kind now raw c h.accounted k).0 s) (
          put_step (λ kind1. bodies kind1 p.kept)
            (λ kind1. rw (← h.bodies_are kind1) (p.sublist kind1))
            (λ y kind1. ap (bodies kind1) (p.lossless y) ∙ h.bodies_are kind1) p.added_one
            p.others),
      record {
        accounted =
            (push-IsAccounted entry_size kind now raw c h.accounted k.removes (inl k.write_ok) u).0;
        sorted = p.sorted;
        bodies_are = λ kind1. refl;
      },
    )
run_op-QueueStep entry_size (take_out kind limit) c q h k m =
    let c' = (pop_kind kind limit c).1 in
    let (popped, left, others, a) = pop_kind-takes kind limit c h.accounted k.removes k.list_ok in
    (
      λ kind1. bodies kind1 c'.files,
      rw (popped, h.bodies_are kind)
          (take_step (left ∙ ap (drop limit) (h.bodies_are kind))
            (λ other n. others other n ∙ h.bodies_are other)),
      record {
        accounted = a;
        sorted = pop_IsSorted kind limit c k.list_ok h.sorted;
        bodies_are = λ kind1. refl;
      },
    )
