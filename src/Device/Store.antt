-- ===== src/Device/Store.antt =====
-- internal/device/store.go: the files that hold the id and the API key of the device. A path has
-- bytes, no file, or an error that is not `os.IsNotExist`.
pub mod Kept
use monitor_agent.Base.{
  Bool, true, false, not, ◌||◌, Option, none, some, Text, empty, is_empty, text_eq, trim_space,
  if◌then◌else◌,
}

pub data FileError : Type 0 where
  read_failed mkdir_failed write_failed : FileError

-- what `os.ReadFile` gives
pub data Content : Type 0 where
  bytes : Text → Content
  missing : Content
  unreadable : Content

pub record Files : Type 0 where
  pub content : Text → Content
  -- whether `os.MkdirAll` of the directory succeeds, and `os.WriteFile`
  pub mkdir_ok : Text → Bool
  pub write_ok : Text → Bool
  -- what `os.WriteFile` of a text leaves at a path where it fails
  pub torn : Text → Text → Content

-- `os.WriteFile` that succeeds
unfoldable pub put_file : Text → Text → Files → Files
put_file path t files = record files {
  content = λ other. if text_eq other path then bytes t else files.content other;
}

-- `os.WriteFile` that fails
unfoldable pub tear_file : Text → Text → Files → Files
tear_file path t files = record files {
  content = λ other. if text_eq other path then files.torn path t else files.content other;
}

-- a text, or an error
pub data Loaded : Type 0 where
  loaded : Text → Loaded
  failed : FileError → Loaded

unfoldable pub trimmed_content : Content → Loaded
trimmed_content (bytes t) = loaded (trim_space t)
trimmed_content missing = loaded empty
trimmed_content unreadable = failed read_failed

-- `LoadID`, and the reading half of `LoadOrStoreID`
unfoldable pub load_id : Text → Files → Loaded
unfolding trimmed_content
load_id path files = trimmed_content (files.content path)

-- `StoreID`
unfoldable pub store_id : Text → Text → Files → Option FileError × Files
unfolding put_file tear_file
store_id path id files =
    if not (files.mkdir_ok path)
    then (some mkdir_failed, files)
    else if not (files.write_ok path)
    then (some write_failed, tear_file path (trim_space id) files)
    else (none, put_file path (trim_space id) files)

-- `LoadOrStoreID`
unfoldable pub load_or_store_id : Text → Text → Files → Loaded × Files
unfolding load_id store_id
load_or_store_id path new_id files =
    if is_empty new_id
    then (load_id path files, files)
    else let (e, files') = store_id path new_id files in
      elim e [ none ↦ (loaded new_id, files') | some err ↦ (failed err, files') ]

-- `LoadAPIKey`
unfoldable pub load_api_key : Text → Files → Loaded
unfolding trimmed_content
load_api_key path files = trimmed_content (files.content path)

-- `StoreAPIKey`
unfoldable pub store_api_key : Text → Text → Files → Option FileError × Files
unfolding put_file tear_file
store_api_key path key files =
    if not (files.mkdir_ok path)
    then (some mkdir_failed, files)
    else if not (files.write_ok path)
    then (some write_failed, tear_file path (trim_space key) files)
    else (none, put_file path (trim_space key) files)
