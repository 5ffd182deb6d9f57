-- ===== src/Cache/Fuel.antt =====
-- The loop of `Push` ends.
use monitor_agent.Base.{
  ℕ, zero, suc, ◌+◌, ◌≤◌, ◌<◌, ◌≡◌, ◌≢◌, refl, sym, ◌∙◌, Bool, true, false, Option, none, some,
  List, [], ◌∷◌, arith, length, All, Bool-cases, Option-cases, ◌⊎◌, inl, inr, Text, if◌then◌else◌,
}
use monitor_agent.Base.Int.{pos, pos_part, ◌+ℤ◌, ◌-ℤ◌, leb_ℤ, +ℤ_parts, -ℤ_parts}
use monitor_agent.Cache.{
  File, Disk, Cache, Kind, Entry, out_of_fuel, cache_full, kind_text, skipped, unlink, drop_oldest,
  make_room, room_fuel, store, save_index, push,
}
use monitor_agent.Cache.Files.{In, length-remove, remove-All}
use monitor_agent.Cache.Room.{Dropped, drop_oldest-Dropped, unlink-closed}

-- A file that the loop does not choose, that can be removed, or that takes bytes off `written`.
abbrev pub IsProgress : Disk → File → Type 0
IsProgress disk f = (skipped f ≡ true) ⊎ ((disk.removes f.name ≡ true) ⊎ (1 ≤ f.size))

-- What the rounds of the loop make smaller.
abbrev left_over : ℕ → Cache → ℕ
left_over size c = length c.files + pos_part (c.written +ℤ pos size)

All-In : (P : File → Type 0) (f : File) (fs : List File) → In f fs → All P fs → P f
All-In P f [] m h = elim m [ ]
All-In P f (g ∷ gs) (inl e) (h, hs) = rw e h
All-In P f (g ∷ gs) (inr m) (h, hs) = All-In P f gs m hs

unlink-length :
    (disk : Disk) (f : File) (fs : List File)
    → In f fs
    → skipped f ≡ false
    → IsProgress disk f
    → (length (unlink disk f.name fs) + 1 ≡ length fs)
      ⊎ ((length (unlink disk f.name fs) ≡ length fs) × (1 ≤ f.size))
unfolding unlink
unlink-length disk f fs m s (inl e) = absurd (cc)
unlink-length disk f fs m s (inr (inl e)) = inl (rw e (length-remove f fs m))
unlink-length disk f fs m s (inr (inr n)) = elim (Bool-cases (disk.removes f.name)) [
  | inl e ↦ inl (rw e (length-remove f fs m))
  | inr e ↦ inr (rw e refl, n)
]

-- A round that drops a file where the new bytes do not fit.
Dropped-left_over :
    (size : ℕ) (c c' : Cache)
    → Dropped c c'
    → All (IsProgress c.disk) c.files
    → leb_ℤ (c.written +ℤ pos size) (pos c.max_bytes) ≡ false
    → left_over size c' < left_over size c
Dropped-left_over size c c' d h n =
    let p = All-In (IsProgress c.disk) d.file c.files d.present h in
    let sums = +ℤ_parts (c.written -ℤ pos d.file.size) (pos size) in
    let less = -ℤ_parts c.written (pos d.file.size) in
    let before = +ℤ_parts c.written (pos size) in
    rw (d.files, d.written)
      (elim (unlink-length c.disk d.file c.files d.present d.candidate.0 p) [
        | inl e ↦ ground (arith, e, sums, less, before)
        | inr (e, k) ↦ ground (arith, e, k, sums, less, before)
      ])

Dropped-IsProgress :
    (c c' : Cache)
    → Dropped c c'
    → All (IsProgress c.disk) c.files
    → All (IsProgress c'.disk) c'.files
Dropped-IsProgress c c' d h =
    rw (d.files, d.disk)
      (unlink-closed (All (IsProgress c.disk)) c.disk d.file.name c.files
        (remove-All (IsProgress c.disk) d.file.name c.files h) h)

-- With enough fuel there is a result, and it is the same for any such fuel.
make_room-ends :
    (fuel more size : ℕ) (c : Cache)
    → All (IsProgress c.disk) c.files
    → left_over size c < fuel
    → left_over size c < more
    → (r : Cache × Bool) × (make_room fuel size c ≡ some r) × (make_room more size c ≡ some r)
unfolding make_room
make_room-ends zero more size c p h k = elim h [ ]
make_room-ends (suc fuel) zero size c p h k = elim k [ ]
make_room-ends (suc fuel) (suc more) size c p h k =
    elim (Bool-cases (leb_ℤ (c.written +ℤ pos size) (pos c.max_bytes))) [
      | inl y ↦ ((c, true), rw y refl, rw y refl)
      | inr n ↦ elim (Option-cases (drop_oldest c)) [
        | inl stuck ↦ ((c, false), rw (n, stuck) refl, rw (n, stuck) refl)
        | inr (c1, e) ↦
            let d = drop_oldest-Dropped c c1 e in
            let smaller = Dropped-left_over size c c1 d p n in
            let (r, one, two) =
              make_room-ends fuel more size c1 (Dropped-IsProgress c c1 d p)
                (omega (arith, smaller, h)) (omega (arith, smaller, k)) in
            (r, rw (n, e) one, rw (n, e) two)
      ]
    ]

store_ends :
    (kind : Kind) (now size : ℕ) (raw : Text) (c : Cache)
    → (store kind now size raw c).1 ≢ some out_of_fuel
unfolding store save_index
store_ends kind now size raw c = elim (Bool-cases c.disk.write_ok) [
  | inl w ↦ elim (Bool-cases c.disk.index_ok) [
    | inl i ↦ rw (w, i) (λ h. cc)
    | inr i ↦ rw (w, i) (λ h. cc)
  ]
  | inr w ↦ rw w (λ h. cc)
]

choose_ends :
    (kind : Kind) (now size : ℕ) (raw : Text) (r : Cache × Bool)
    → (if r.1 then store kind now size raw r.0 else (r.0, some cache_full)).1 ≢ some out_of_fuel
choose_ends kind now size raw (c, true) = store_ends kind now size raw c
choose_ends kind now size raw (c, false) = λ h. cc

more_fuel :
    (extra size : ℕ) (c : Cache)
    → All (IsProgress c.disk) c.files
    → make_room (room_fuel size c + extra) size c ≡ make_room (room_fuel size c) size c
more_fuel extra size c h =
    let (r, p, q) =
      make_room-ends (room_fuel size c) (room_fuel size c + extra) size c h (omega arith)
        (omega arith) in
    q ∙ sym p

-- If each counted file is not empty or can be removed, `Push` ends, whichever other removals fail: the
-- fuel of one more than the files and the bytes that it would count never runs out, and more fuel gives
-- its loop the same result.
pub push_terminates :
    (entry_size : Entry → ℕ) (kind : Kind) (now size extra : ℕ) (body : Option Text) (c : Cache)
    → All (IsProgress c.disk) c.files
    → ((push entry_size kind now body c).1 ≢ some out_of_fuel)
      × (make_room (room_fuel size c + extra) size c ≡ make_room (room_fuel size c) size c)
unfolding push
push_terminates entry_size kind now size extra none c h = (λ k. cc, more_fuel extra size c h)
push_terminates entry_size kind now size extra (some raw) c h =
    let bytes = entry_size (record { kind = kind_text kind; time = now; body = raw }) in
    let (r, p, q) =
      make_room-ends (room_fuel bytes c) (room_fuel bytes c) bytes c h (omega arith)
        (omega arith) in
    (rw (push, p) (choose_ends kind now bytes raw r), more_fuel extra size c h)
