-- ===== src/Identity/Shared/Same.antt =====
-- All processes get one identity.
use monitor_agent.Base.{ℕ, ◌≡◌, refl, sym, ap, ◌∙◌, true, ◌⊎◌, inl, inr, List, [], ◌∷◌, arith}
use monitor_agent.Identity.{
  Keys, Identity, Machine, Store, LoadError, read, node_id_of, take_node_id, with_node_id, pair,
  load_or_create,
}
use monitor_agent.Identity.Stable.{
  KeyLaws, IsFresh, Opens, IsKept, kept_again, load_or_create-IsKept,
}
use monitor_agent.Identity.Shared.{
  Turn, free, locked, named, Shared, Step, lock, name, finish_and_unlock, Reach, begin, later,
}

-- The identity is among what was returned.
abbrev pub Returned : Identity → List (LoadError ⊎ Identity) → Type 0
Returned id [] = ⊥
Returned id (r ∷ rs) = (r ≡ inr id) ⊎ Returned id rs

module _ (keys : Keys) (laws : KeyLaws keys) (machines : ℕ → Machine) where
  -- The store that the call under way has started from.
  At : Turn → Store → Store → Type 0
  At free s base = s ≡ base
  At (locked i) s base = (s ≡ base) × ((machines i).mkdir_ok ≡ true) × ((machines i).lock_ok ≡ true)
  At (named i id) s base =
      ((id, s)
        ≡ take_node_id (machines i) base
            (node_id_of (read (machines i).read_node_id_ok base.node_id_file)))
      × ((machines i).mkdir_ok ≡ true)
      × ((machines i).lock_ok ≡ true)

  record Ready (s : Shared) : Type 0 where
    base : Store
    at_base : At s.turn s.store base
    kept : (id : Identity) → Returned id s.returned → IsKept keys laws id base

  Kept-eq : (a b : Identity) (s : Store) → IsKept keys laws a s → IsKept keys laws b s → a ≡ b
  Kept-eq a b s h k =
      let n : a.node_id ≡ b.node_id = cc (h.named, k.named) in
      let p : pair a.private_key a.public_key ≡ pair b.private_key b.public_key =
        sym h.loads ∙ (rw n k.loads) in
      ground (arith, n, p)

  called :
      (m : Machine) (s : Store)
      → m.mkdir_ok ≡ true
      → m.lock_ok ≡ true
      → load_or_create keys m s
        ≡ with_node_id keys m
            (take_node_id m s (node_id_of (read m.read_node_id_ok s.node_id_file)))
  unfolding load_or_create
  called m s made locks = rw (made, locks) refl

  finished :
      (m : Machine) (base : Store) (rs : List (LoadError ⊎ Identity))
      → IsFresh m.fresh_id
      → Opens m
      → ((id : Identity) → Returned id rs → IsKept keys laws id base)
      → (id : Identity) → Returned id ((load_or_create keys m base).0 ∷ rs)
      → IsKept keys laws id (load_or_create keys m base).1
  finished m base rs f o k id (inl e) = load_or_create-IsKept keys laws m base id f e
  finished m base rs f o k id (inr r) = rw (kept_again keys laws m base id o (k id r)) (k id r)

  Step-Ready :
      ((i : ℕ) → IsFresh (machines i).fresh_id)
      → ((i : ℕ) → Opens (machines i))
      → {s t : Shared} → Ready s
      → Step keys machines s t
      → Ready t
  unfolding At
  Step-Ready f o {s} r (lock i e made locks) =
      let h : s.store ≡ r.base = (rw e at r.at_base) in
      record { base = r.base; at_base = (h, made, locks); kept = r.kept }
  Step-Ready f o {s} r (name i e) =
      let at_lock : At (locked i) s.store r.base = (rw e at r.at_base) in
      let (h, made, locks) = at_lock in
      record { base = r.base; at_base = (rw h refl, made, locks); kept = r.kept }
  Step-Ready f o {s} r (finish_and_unlock i {id} e) =
      let at_name : At (named i id) s.store r.base = (rw e at r.at_base) in
      let (h, made, locks) = at_name in
      let m = machines i in
      let w : with_node_id keys m (id, s.store) ≡ load_or_create keys m r.base =
        ap (with_node_id keys m) h ∙ sym (called m r.base made locks) in
      record {
        base = (with_node_id keys m (id, s.store)).1;
        at_base = refl;
        kept = rw w (finished m r.base s.returned (f i) (o i) r.kept);
      }

  Reach-Ready :
      ((i : ℕ) → IsFresh (machines i).fresh_id)
      → ((i : ℕ) → Opens (machines i))
      → {first : Store} {s : Shared} → Reach keys machines first s
      → Ready s
  unfolding At
  Reach-Ready f o {first} begin = record { base = first; at_base = refl; kept = λ id r. elim r [ ] }
  Reach-Ready f o (later r s) = Step-Ready f o (Reach-Ready f o r) s

  -- If parsing undoes marshalling, a generated pair matches, and fresh ids are not blank and have no
  -- space at their ends, and each process can make and lock the folder and read its files: whatever the
  -- folder holds, whichever writes fail, and in whatever order the processes take the lock,
  -- the calls of `LoadOrCreate` that return an identity all return the same one.
  pub Reach-Same :
      ((i : ℕ) → IsFresh (machines i).fresh_id)
      → ((i : ℕ) → Opens (machines i))
      → (first : Store) (s : Shared) → Reach keys machines first s
      → (a b : Identity) → Returned a s.returned
      → Returned b s.returned
      → a ≡ b
  Reach-Same f o first s r a b p q =
      let ready = Reach-Ready f o r in Kept-eq a b ready.base (ready.kept a p) (ready.kept b q)
