-- ===== src/Device/Store/Kept.antt =====
-- What is stored is read back.
use monitor_agent.Base.{
  ◌≡◌, refl, none, Text, text_eq, text_eq_refl, false, trim_space, trim_space_idem, Bool-cases,
  some, inl, inr,
}
use monitor_agent.Device.Store.{
  FileError, Files, tear_file, loaded, put_file, trimmed_content, load_api_key, store_api_key,
}

-- A key that was stored is read back without the blanks around it.
pub load_api_key-store_api_key :
    (path key : Text) (files : Files)
    → (store_api_key path key files).0 ≡ none
    → load_api_key path (store_api_key path key files).1 ≡ loaded (trim_space key)
unfolding load_api_key store_api_key put_file trimmed_content
load_api_key-store_api_key path key files h = elim (Bool-cases (files.mkdir_ok path)) [
  | inl m ↦ elim (Bool-cases (files.write_ok path)) [
    | inl w ↦ rw (m, w, text_eq_refl path, trim_space_idem key) refl
    | inr w ↦ absurd (cc (rw (m, w) at h))
  ]
  | inr m ↦ absurd (cc (rw m at h))
]

-- No file but that one has changed.
abbrev pub OnlyAt : Text → Files → Files → Type 0
OnlyAt path before after =
    (other : Text) → text_eq other path ≡ false → after.content other ≡ before.content other

-- Where the store fails, no other file has changed.
pub store_api_key_failed :
    (path key : Text) (files : Files) (e : FileError)
    → (store_api_key path key files).0 ≡ some e
    → OnlyAt path files (store_api_key path key files).1
unfolding store_api_key tear_file
store_api_key_failed path key files e h = elim (Bool-cases (files.mkdir_ok path)) [
  | inl m ↦ elim (Bool-cases (files.write_ok path)) [
    | inl w ↦ absurd (cc (rw (m, w) at h))
    | inr w ↦ λ other n. rw (m, w) (rw n)
  ]
  | inr m ↦ λ other n. rw m refl
]
