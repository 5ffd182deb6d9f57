-- ===== src/Agent/Startup/Keys.antt =====
-- The key over restarts.
use monitor_agent.Base.{
  ◌+◌, ◌≡◌, refl, sym, ap, ◌∙◌, Bool, true, false, Option, none, some, List, [], ◌∷◌, Bool-cases,
  Option-cases, inl, inr, Text, is_empty, text_eq_refl, trim_space, trim_space_idem, if◌then◌else◌,
}
use monitor_agent.Base.Int.{pos}
use monitor_agent.Collector.Words.{any}
use monitor_agent.Client.{Failure, is_api_error_code}
use monitor_agent.Device.Store.{
  Files, Content, missing, bytes, unreadable, loaded, failed, FileError, load_api_key,
  store_api_key, trimmed_content,
}
use monitor_agent.Device.Store.Kept.{load_api_key-store_api_key}
use monitor_agent.Device.Info.{Info}
use monitor_agent.Pairing.{Ended, paired, failed, panicked}
use monitor_agent.Agent.Startup.{
  Acquired, with_key, stopped, crashed, Answers, loaded_key, device_info, keep_key, pair_device,
  acquire_key, Running, remove_file, handle_credential_revoked, after_heartbeat, heartbeats,
}

-- A start that finds the file goes on with the key in it.
found :
    (path key : Text) (a : Answers) (files : Files)
    → load_api_key path files ≡ loaded key
    → is_empty key ≡ false
    → acquire_key path a files ≡ (with_key key, files)
unfolding acquire_key
found path key a files h k = rw (h, k) refl

-- What is read is trimmed, unless it is an error.
content_trimmed :
    (c : Content)
    → is_empty (loaded_key (trimmed_content c)) ≡ false
    → trimmed_content c ≡ loaded (trim_space (loaded_key (trimmed_content c)))
unfolding trimmed_content loaded_key
content_trimmed (bytes t) h = ap loaded (sym (trim_space_idem t))
content_trimmed missing h = absurd (cc)
content_trimmed unreadable h = absurd (cc)

key_trimmed :
    (path : Text) (files : Files)
    → is_empty (loaded_key (load_api_key path files)) ≡ false
    → load_api_key path files ≡ loaded (trim_space (loaded_key (load_api_key path files)))
unfolding load_api_key
key_trimmed path files h = content_trimmed (files.content path) h

-- What a start leaves when it goes on with a key: a file with that key.
Leaves : Text → Acquired × Files → Type 0
Leaves path (with_key key, files) = load_api_key path files ≡ loaded (trim_space key)
Leaves path (stopped e, files) = Unit
Leaves path (crashed, files) = Unit

kept-Leaves :
    (path key : Text) (files : Files) (r : Option FileError × Files)
    → store_api_key path key files ≡ r
    → Leaves path (keep_key path key r)
unfolding Leaves keep_key
kept-Leaves path key files (none, files') e =
    let stored =
      load_api_key-store_api_key path key files (ap (λ (x : Option FileError × Files). x.0) e) in
    sym (ap (λ (x : Option FileError × Files). load_api_key path x.1) e) ∙ stored
kept-Leaves path key files (some f, files') e = tt

pair_device-Leaves :
    (path : Text) (e : Ended) (files : Files) → Leaves path (pair_device path e files)
unfolding pair_device
pair_device-Leaves path (paired key) files =
    kept-Leaves path key files (store_api_key path key files) refl
pair_device-Leaves path (failed e) files = unfold Leaves in tt
pair_device-Leaves path panicked files = unfold Leaves in tt

acquire_key-Leaves :
    (path : Text) (a : Answers) (files : Files) → Leaves path (acquire_key path a files)
unfolding acquire_key
acquire_key-Leaves path a files =
    elim (Bool-cases (is_empty (loaded_key (load_api_key path files)))) [
      | inl y ↦ elim (Option-cases (device_info a)) [
        | inl d ↦ rw (y, d) (unfold Leaves in tt)
        | inr (info, d) ↦ rw (y, d) (pair_device-Leaves path a.pairing files)
      ]
      | inr n ↦ rw n (unfold Leaves in key_trimmed path files n)
    ]

-- If a start went on with a key that is not blank, a start from the files that it left, whatever the
-- server and the machine answer, goes on with that key, without blanks around it, and changes no file.
pub acquire_key_again :
    (path key : Text) (a b : Answers) (files files' : Files)
    → acquire_key path a files ≡ (with_key key, files')
    → is_empty (trim_space key) ≡ false
    → acquire_key path b files' ≡ (with_key (trim_space key), files')
acquire_key_again path key a b files files' h k =
    let left : Leaves path (with_key key, files') = rw (← h) (acquire_key-Leaves path a files) in
    found path (trim_space key) b files' (unfold Leaves in left) k

-- the server has revoked the key
abbrev pub is_revoked : Option Failure → Bool
is_revoked e = is_api_error_code e (pos 40002)

module _ (removes : Bool) (path : Text) where
  once_revoked :
      (es : List (Option Failure)) (r : Running)
      → r.revoked ≡ true
      → heartbeats removes path es r ≡ r
  unfolding heartbeats after_heartbeat handle_credential_revoked
  once_revoked [] r h = refl
  once_revoked (e ∷ es) r h = elim (Bool-cases (is_revoked e)) [
    | inl y ↦ simp (y, h) (once_revoked es r h)
    | inr n ↦ rw n (once_revoked es r h)
  ]

  abbrev cleared : Running → Running
  cleared r = record {
    files = remove_file removes path r.files;
    revoked = true;
    exits = r.exits + 1;
  }

  -- The heartbeats clear the key if one of them is told so, and do nothing otherwise.
  heartbeats_lem :
      (es : List (Option Failure)) (r : Running)
      → r.revoked ≡ false
      → heartbeats removes path es r ≡ (if any is_revoked es then cleared r else r)
  unfolding heartbeats after_heartbeat handle_credential_revoked
  heartbeats_lem [] r h = refl
  heartbeats_lem (e ∷ es) r h = elim (Bool-cases (is_revoked e)) [
    | inl y ↦ rw (y, h) (once_revoked es (cleared r) refl)
    | inr n ↦ rw n (heartbeats_lem es r h)
  ]

  no_key_left :
      (files : Files)
      → removes ≡ true
      → load_api_key path (remove_file removes path files) ≡ loaded []
  unfolding load_api_key remove_file trimmed_content
  no_key_left files h = rw (h, text_eq_refl path) refl

  -- In a process that has not seen a revoked key: if one of the heartbeats gets the code 40002, the exit
  -- is set once, however many get it, and, where the file can be removed, the next start finds no key
  -- and pairs if it knows the device. If none gets it, nothing changes.
  pub heartbeats_revoked :
      (es : List (Option Failure)) (r : Running)
      → r.revoked ≡ false
      → (any is_revoked es ≡ false → heartbeats removes path es r ≡ r)
        × (any is_revoked es ≡ true
            → ((heartbeats removes path es r).exits ≡ r.exits + 1)
              × (removes ≡ true
                  → (a : Answers) (info : Info) → device_info a ≡ some info
                  → acquire_key path a (heartbeats removes path es r).files
                    ≡ pair_device path a.pairing (heartbeats removes path es r).files))
  heartbeats_revoked es r h = (
    λ n. heartbeats_lem es r h ∙ (rw n refl),
    λ y.
        rw (heartbeats_lem es r h, y)
          (
            refl,
            λ ok a info d. unfold acquire_key loaded_key in rw (no_key_left r.files ok, d) refl,
          ),
  )
