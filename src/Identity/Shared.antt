-- ===== src/Identity/Shared.antt =====
-- `LoadOrCreate` of internal/identity/identity.go in several processes on one folder: `lockIdentityDir`
-- takes a lock on the file .lock, and the lock is given back when the call returns.
pub mod Same
use monitor_agent.Base.{ℕ, ◌≡◌, true, Option, ◌⊎◌, List, [], ◌∷◌, Text}
use monitor_agent.Identity.{
  Keys, Identity, Machine, Store, LoadError, read, node_id_of, take_node_id, with_node_id,
}

-- Who holds the lock, and how far its call is.
pub data Turn : Type 0 where
  free : Turn
  locked : ℕ → Turn
  -- after `loadOrCreateNodeID`, with what it returns
  named : ℕ → Option Text → Turn

pub record Shared : Type 0 where
  pub store : Store
  pub turn : Turn
  -- what the calls have returned, the newest first
  pub returned : List (LoadError ⊎ Identity)

abbrev pub before_all : Store → Shared
before_all s = record { store = s; turn = free; returned = [] }

-- `machines i` is what the i-th call meets.
module _ (keys : Keys) (machines : ℕ → Machine) where
  pub data Step (s : Shared) : Shared → Type 0 where
    lock :
        (i : ℕ)
        → s.turn ≡ free
        → (machines i).mkdir_ok ≡ true
        → (machines i).lock_ok ≡ true
        → Step s (record s { turn = locked i })
    name :
        (i : ℕ)
        → s.turn ≡ locked i
        → Step s (record s {
          store =
              (take_node_id
                (machines i)
                s.store
                (node_id_of (read (machines i).read_node_id_ok s.store.node_id_file))).1;
          turn =
              named i
                (take_node_id
                  (machines i)
                  s.store
                  (node_id_of (read (machines i).read_node_id_ok s.store.node_id_file))).0;
        })
    finish_and_unlock :
        (i : ℕ) {id : Option Text}
        → s.turn ≡ named i id
        → Step s (record {
          store = (with_node_id keys (machines i) (id, s.store)).1;
          turn = free;
          returned = (with_node_id keys (machines i) (id, s.store)).0 ∷ s.returned;
        })

  pub data Reach (first : Store) : Shared → Type 0 where
    begin : Reach first (before_all first)
    later : {s t : Shared} → Reach first s → Step s t → Reach first t
