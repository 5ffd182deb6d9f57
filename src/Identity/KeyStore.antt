-- ===== src/Identity/KeyStore.antt =====
-- internal/identity/keystore.go, keystore_file.go and keystore_darwin.go: where the private key is
-- kept. `none` is an error of a load; false is an error of a save or a deletion.
use monitor_agent.Base.{
  ◌≡◌, refl, Bool, true, false, not, Option, none, some, Text, lit, Bool-cases, inl, inr,
  if◌then◌else◌,
}

-- `KeyStore`
pub record KeyStore : Type 1 where
  pub State : Type 0
  pub save_private_key : Text → Text → State → Bool × State
  pub load_private_key : Text → State → Option Text
  pub delete_private_key : Text → State → Bool × State
  pub storage_type : Text

-- What a caller of `KeyStore` relies on: a key that was saved is loaded.
pub record Keeps (k : KeyStore) : Type 0 where
  pub load-save :
      (id pem : Text) (s : k.State)
      → (k.save_private_key id pem s).0 ≡ true
      → k.load_private_key id (k.save_private_key id pem s).1 ≡ some pem

-- the file private.key, and whether the calls of `os` on it succeed
pub record Folder : Type 0 where
  pub key_file : Option Text
  pub mkdir_ok : Bool
  pub write_ok : Bool
  pub read_ok : Bool
  pub remove_ok : Bool

-- `fileStore.SavePrivateKey`; the path does not depend on the node.
unfoldable pub save_file : Text → Text → Folder → Bool × Folder
save_file id pem f =
    if not f.mkdir_ok
    then (false, f)
    else if f.write_ok
    then (true, record f { key_file = some pem })
    else (false, f)

-- `fileStore.LoadPrivateKey`
unfoldable pub load_file : Text → Folder → Option Text
load_file id f = if f.read_ok then f.key_file else none

-- `fileStore.DeletePrivateKey`
unfoldable pub delete_file : Text → Folder → Bool × Folder
delete_file id f = elim f.key_file [
  | none ↦ (false, f)
  | some pem ↦ if f.remove_ok then (true, record f { key_file = none }) else (false, f)
]

-- `NewFileStore`
abbrev pub file_store : KeyStore
file_store = record {
  State = Folder;
  save_private_key = save_file;
  load_private_key = load_file;
  delete_private_key = delete_file;
  storage_type = lit "File";
}

-- What the file store keeps where the file can be read.
file_load-save :
    (id pem : Text) (f : Folder)
    → f.read_ok ≡ true
    → (save_file id pem f).0 ≡ true
    → load_file id (save_file id pem f).1 ≡ some pem
unfolding save_file load_file
file_load-save id pem f r h = elim (Bool-cases f.mkdir_ok) [
  | inl m ↦ elim (Bool-cases f.write_ok) [
    | inl w ↦ rw (m, w, r) refl
    | inr w ↦ absurd (cc (rw (m, w) at h))
  ]
  | inr m ↦ absurd (cc (rw m at h))
]

-- What `go-keychain` does with the generic passwords of the service: `AddItem`, `QueryItem`,
-- `DeleteItem` by the account.
pub record Keychain : Type 1 where
  pub State : Type 0
  pub add_item : Text → Text → State → Bool × State
  -- the data of the first result
  pub query_item : Text → State → Option Text
  pub delete_item : Text → State → Bool × State

-- The documented behaviour: an item that was added is found.
pub record IsKeychain (c : Keychain) : Type 0 where
  pub query-add :
      (account data1 : Text) (s : c.State)
      → (c.add_item account data1 s).0 ≡ true
      → c.query_item account (c.add_item account data1 s).1 ≡ some data1

-- `keychainStore.SavePrivateKey`: an item that is there is deleted first.
unfoldable pub save_item : (c : Keychain) → Text → Text → c.State → Bool × c.State
save_item c id pem s = c.add_item id pem (c.delete_item id s).1

-- `NewKeychainStore`
abbrev pub keychain_store : Keychain → KeyStore
keychain_store c = record {
  State = c.State;
  save_private_key = save_item c;
  load_private_key = c.query_item;
  delete_private_key = c.delete_item;
  storage_type = lit "macOS Keychain";
}

-- The keychain store keeps a key, if the keychain behaves as it is documented.
pub keychain_store-Keeps : (c : Keychain) → IsKeychain c → Keeps (keychain_store c)
unfolding save_item
keychain_store-Keeps c h = record {
  load-save = λ id pem s ok. h.query-add id pem (c.delete_item id s).1 ok;
}
