-- ===== src/Cache.antt =====
-- internal/cache/cache.go: the file cache that holds metrics and logs while the server is away.
-- The directory is the list of its files in the order of `os.ReadDir`, which sorts by name. A file
-- carries what the code reads of it: its length, its modification time, and what `json.Unmarshal`
-- makes of its bytes. Each call on the directory may fail: a removal for the name it is given, and a
-- write may then leave a part of the file.
pub mod Files
pub mod Room
pub mod Sorted
pub mod Queue
pub mod Refinement
pub mod Clock
pub mod Push
pub mod Fuel
pub mod Bodies
pub mod Pop
pub mod Examples
use monitor_agent.Base.{
  ℕ, zero, suc, ◌+◌, ◌*◌, ◌<◌, Bool, true, false, not, ◌||◌, ◌&&◌, Option, none, some, List, [],
  ◌∷◌, ◌++◌, Text, lit, text_eq, text_ltb, has_prefix, format_nat, length, leb, ltb, ◌==◌,
  if◌then◌else◌,
}
use monitor_agent.Base.Int.{ℤ, pos, pos_part, ◌+ℤ◌, ◌-ℤ◌, leb_ℤ}

pub data Kind : Type 0 where
  metrics logs : Kind

abbrev pub kind_text : Kind → Text
kind_text metrics = lit "metrics"
kind_text logs = lit "logs"

pub record Entry : Type 0 where
  pub kind : Text
  pub time : ℕ
  pub body : Text

pub record File : Type 0 where
  pub name : Text
  pub is_dir : Bool
  pub size : ℕ
  pub mod_time : ℕ
  pub stat_ok : Bool
  pub read_ok : Bool
  -- what `json.Unmarshal` gives for the bytes of the file
  pub entry : Option Entry

-- Which of the calls of `os` on the directory succeed, and what a failed one leaves.
pub record Disk : Type 0 where
  pub list_ok : Bool
  pub write_ok : Bool
  pub index_ok : Bool
  -- whether `os.Remove` of a file of that name succeeds
  pub removes : Text → Bool
  -- what a failed write makes of index.json
  pub torn_index : Option ℤ → Option ℤ
  -- the file that a failed `os.WriteFile` leaves under the new name, if it leaves one: its length, and
  -- what `json.Unmarshal` gives for its bytes
  pub leftover : Option (ℕ × Option Entry)

pub record Cache : Type 0 where
  pub files : List File
  -- `written` of index.json, if the file is there
  pub index : Option ℤ
  pub max_bytes : ℕ
  pub written : ℤ
  pub disk : Disk

-- `e.IsDir() || e.Name() == "index.json"`
unfoldable pub skipped : File → Bool
skipped f = f.is_dir || text_eq f.name (lit "index.json")

unfoldable pub load_index : Cache → Cache
load_index c = elim c.index [ none ↦ c | some n ↦ record c { written = n } ]

unfoldable pub new : List File → Option ℤ → ℤ → Disk → Cache
unfolding load_index
new files index max_size_mb disk =
    let mb : ℕ = if leb_ℤ max_size_mb (pos 0) then 50 else pos_part max_size_mb in
    load_index (record {
      files = files;
      index = index;
      max_bytes = mb * 1024 * 1024;
      written = pos 0;
      disk = disk;
    })

-- `saveIndex`: false is an error.
unfoldable pub save_index : Cache → Cache × Bool
save_index c =
    if c.disk.index_ok
    then (record c { index = some c.written }, true)
    else (record c { index = c.disk.torn_index c.index }, false)

-- `os.WriteFile`: a file of that name is replaced.
unfoldable pub write_file : File → List File → List File
unfolding text_ltb
write_file f [] = f ∷ []
write_file f (g ∷ gs) =
    if text_eq f.name g.name
    then f ∷ gs
    else if text_ltb f.name g.name
    then f ∷ g ∷ gs
    else g ∷ write_file f gs

-- `os.Remove`
unfoldable pub remove : Text → List File → List File
remove name [] = []
remove name (g ∷ gs) = if text_eq g.name name then gs else g ∷ remove name gs

-- `_ = os.Remove(...)`: the error is dropped.
unfoldable pub unlink : Disk → Text → List File → List File
unlink disk name fs = if disk.removes name then remove name fs else fs

-- one round of the loop of `dropOldest`
older : Option File → File → Option File
older best f =
    if skipped f || not f.stat_ok
    then best
    else elim best [ none ↦ some f | some b ↦ if ltb f.mod_time b.mod_time then some f else some b ]

scan_oldest : Option File → List File → Option File
unfolding older skipped
scan_oldest best [] = best
scan_oldest best (f ∷ fs) = scan_oldest (older best f) fs

-- `none` is the answer false.
unfoldable pub drop_oldest : Cache → Option Cache
unfolding scan_oldest unlink
drop_oldest c = if not c.disk.list_ok then none else elim (scan_oldest none c.files) [
  | none ↦ none
  | some f ↦
      some (record c { files = unlink c.disk f.name c.files; written = c.written -ℤ pos f.size })
]

-- `for c.written+size > c.maxBytes`; the Boolean is false where the loop returns its error, and
-- `none` stands for fuel that ran out.
unfoldable pub make_room : ℕ → ℕ → Cache → Option (Cache × Bool)
make_room zero size c = none
make_room (suc fuel) size c =
    if leb_ℤ (c.written +ℤ pos size) (pos c.max_bytes)
    then some (c, true)
    else elim (drop_oldest c) [ none ↦ some (c, false) | some c' ↦ make_room fuel size c' ]

pub data PushError : Type 0 where
  marshal_failed cache_full write_failed index_failed out_of_fuel : PushError

abbrev pub file_name : Kind → ℕ → Text
file_name kind now = kind_text kind ++ lit "_" ++ format_nat now ++ lit ".json"

abbrev pub new_file : Kind → ℕ → ℕ → Text → File
new_file kind now size raw = record {
  name = file_name kind now;
  is_dir = false;
  size = size;
  mod_time = now;
  stat_ok = true;
  read_ok = true;
  entry = some (record { kind = kind_text kind; time = now; body = raw });
}

-- What a failed `os.WriteFile` leaves of the directory. It is not counted.
unfoldable pub write_failure : Kind → ℕ → Text → Cache → Cache
unfolding write_file
write_failure kind now raw c = elim c.disk.leftover [
  | none ↦ c
  | some (n, e) ↦ record c {
    files = write_file (record (new_file kind now n raw) { entry = e }) c.files;
  }
]

-- What `Push` does once there is room. `now` is the clock in nanoseconds, `size` the length of the
-- marshalled entry.
unfoldable pub store : Kind → ℕ → ℕ → Text → Cache → Cache × Option PushError
unfolding save_index write_file write_failure
store kind now size raw c =
    let f = new_file kind now size raw in
    let (c', saved) =
      save_index (record c { files = write_file f c.files; written = c.written +ℤ pos size }) in
    if not c.disk.write_ok
    then (write_failure kind now raw c, some write_failed)
    else (c', if saved then none else some index_failed)

-- Fuel for the loop of `Push`: a round removes a file, or takes its bytes off `written`.
abbrev pub room_fuel : ℕ → Cache → ℕ
room_fuel size c = length c.files + pos_part (c.written +ℤ pos size) + 1

-- `Push`. The marshalled body is `none` where `json.Marshal` fails; `entry_size` is the length of
-- what `json.Marshal` makes of an entry.
unfoldable pub push : (Entry → ℕ) → Kind → ℕ → Option Text → Cache → Cache × Option PushError
unfolding make_room store
push entry_size kind now none c = (c, some marshal_failed)
push entry_size kind now (some raw) c =
    let size = entry_size (record { kind = kind_text kind; time = now; body = raw }) in
    elim (make_room (room_fuel size c) size c) [
      | none ↦ (c, some out_of_fuel)
      | some (c', fits) ↦ if fits then store kind now size raw c' else (c', some cache_full)
    ]

-- The body that `popKind` takes from a file, if it takes one.
unfoldable pub taken : Kind → File → Option Text
taken kind f =
    let prefix = kind_text kind ++ lit "_" in
    if ltb (length f.name) (length prefix + 1) || not (has_prefix f.name prefix)
    then none
    else if not f.read_ok
    then none
    else elim f.entry [
      | none ↦ none
      | some e ↦ if not (text_eq e.kind (kind_text kind)) then none else some e.body
    ]

unfoldable pub pop_loop : Kind → ℕ → List File → List Text → Cache → List Text × Cache
unfolding unlink taken
pop_loop kind limit [] out c = (out, c)
pop_loop kind limit (f ∷ fs) out c =
    let rest = pop_loop kind limit fs out c in
    if skipped f then rest else if leb limit (length out) then (out, c) else elim (taken kind f) [
      | none ↦ rest
      | some body ↦
          pop_loop kind limit fs (out ++ body ∷ [])
            (record c { files = unlink c.disk f.name c.files; written = c.written -ℤ pos f.size })
    ]

-- `popKind`; `none` is the error of `os.ReadDir`. The error of `saveIndex` is dropped.
unfoldable pub pop_kind : Kind → ℕ → Cache → Option (List Text) × Cache
unfolding pop_loop save_index
pop_kind kind limit c =
    if not c.disk.list_ok
    then (none, c)
    else let (out, c') = pop_loop kind limit c.files [] c in (some out, (save_index c').0)

unfoldable pub pop_metrics : ℕ → Cache → Option (List Text) × Cache
unfolding pop_kind
pop_metrics = pop_kind metrics

unfoldable pub pop_logs : ℕ → Cache → Option (List Text) × Cache
unfolding pop_kind
pop_logs = pop_kind logs
