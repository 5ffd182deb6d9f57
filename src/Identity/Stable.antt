-- ===== src/Identity/Stable.antt =====
-- An identity that was loaded or created is the one that is loaded from then on.
use monitor_agent.Base.{
  ◌≡◌, refl, ◌∙◌, arith, Bool, true, false, Option, none, some, ◌⊎◌, inl, inr, [], ◌∷◌, ◌++◌, Text,
  text_eq_refl, is_empty, trim_space, Bool-cases, Option-cases,
}
use monitor_agent.Identity.{
  Keys, Identity, Store, Machine, LoadError, node_id_of, take_node_id, Stored, absent, broken, pair,
  read, parsed, load_pair, save_private, save_public, generate, finish, with_node_id,
  load_or_create,
}

-- What the functions on keys promise: parsing undoes marshalling, and a generated pair matches.
pub record KeyLaws (keys : Keys) : Type 0 where
  pub private_round : (k : Text) → keys.parse_private (keys.marshal_private k) ≡ some k
  pub public_round :
      (k pem : Text) → keys.marshal_public k ≡ some pem → keys.parse_public pem ≡ some k
  pub matches : (k : Text) → keys.verify k (keys.public_of k) ≡ true

-- A fresh id is not blank, and has no space at its ends.
pub record IsFresh (id : Text) : Type 0 where
  pub kept : trim_space (id ++ 10 ∷ []) ≡ id
  pub filled : is_empty id ≡ false

-- A call that can make and lock the folder, and read its files.
pub record Opens (m : Machine) : Type 0 where
  pub made : m.mkdir_ok ≡ true
  pub locked : m.lock_ok ≡ true
  pub reads_node_id : m.read_node_id_ok ≡ true
  pub reads_private : m.read_private_ok ≡ true
  pub reads_public : m.read_public_ok ≡ true

-- An id that was read is in the file.
node_id_of-read :
    (ok : Bool) (file : Option Text) (id : Text)
    → node_id_of (read ok file) ≡ some id
    → node_id_of file ≡ some id
unfolding read node_id_of
node_id_of-read true file id h = h
node_id_of-read false file id h = cc

module _ (keys : Keys) (laws : KeyLaws keys) where
  -- The store holds this identity.
  pub record IsKept (id : Identity) (s : Store) : Type 0 where
    pub named : node_id_of s.node_id_file ≡ some id.node_id
    pub loads :
        load_pair keys (s.private_keys id.node_id) s.public_file ≡ pair id.private_key id.public_key

  take_node_id-named :
      (m : Machine) (s : Store) (o : Option Text) (id : Text)
      → IsFresh m.fresh_id
      → node_id_of (read m.read_node_id_ok s.node_id_file) ≡ o
      → (take_node_id m s o).0 ≡ some id
      → node_id_of (take_node_id m s o).1.node_id_file ≡ some id
  unfolding take_node_id node_id_of
  take_node_id-named m s (some n) id f e h =
      node_id_of-read m.read_node_id_ok s.node_id_file n e ∙ h
  take_node_id-named m s none id f e h = elim (Bool-cases m.write_node_id_ok) [
    | inl y ↦ ground (arith, f.kept, f.filled)
    | inr n ↦ absurd (ground arith)
  ]

  inr-IsKept :
      (i id : Identity) (s : Store) (x : LoadError ⊎ Identity)
      → IsKept i s
      → x ≡ inr i
      → x ≡ inr id
      → IsKept id s
  inr-IsKept i id s x k a b = let p : i ≡ id = cc in rw (← p) k

  generate-IsKept :
      (m : Machine) (n : Text) (o : Option Text) (s : Store) (id : Identity)
      → node_id_of s.node_id_file ≡ some n
      → (generate keys m n o s).0 ≡ inr id
      → IsKept id (generate keys m n o s).1
  unfolding generate save_public save_private load_pair parsed
  generate-IsKept m n none s id e h = cc
  generate-IsKept m n (some k) s id e h = elim (Bool-cases m.save_key_ok) [
    | inr bad ↦ absurd (ground arith)
    | inl saved ↦ elim (Option-cases (keys.marshal_public (keys.public_of k))) [
      | inl bad ↦ absurd (ground arith)
      | inr (pem, p) ↦ elim (Bool-cases m.write_public_ok) [
        | inr bad ↦ absurd (ground arith)
        | inl written ↦
            let i0 : Identity = record {
              node_id = n;
              public_key = keys.public_of k;
              private_key = k;
            } in
            let s2 : Store = record (save_private keys n (keys.marshal_private k) s) {
              public_file = some pem;
            } in
            let g : generate keys m n (some k) s ≡ (inr i0, s2) = simp (saved, p, written) in
            let kept : IsKept i0 s2 = record {
              named = e;
              loads = simp (
                text_eq_refl n,
                laws.private_round k,
                laws.public_round (keys.public_of k) pem p,
                laws.matches k,
              );
            } in
            rw g (inr-IsKept i0 id s2 (inr i0) kept refl (rw g at h))
      ]
    ]
  ]

  load_pair-read :
      (ok good : Bool) (priv pub_key : Option Text) (p q : Text)
      → load_pair keys (read ok priv) (read good pub_key) ≡ pair p q
      → load_pair keys priv pub_key ≡ pair p q
  unfolding read load_pair
  load_pair-read true true priv pub_key p q h = h
  load_pair-read true false none pub_key p q h = cc
  load_pair-read true false (some k) pub_key p q h = cc
  load_pair-read false good priv pub_key p q h = cc

  finish-IsKept :
      (m : Machine) (n : Text) (o : Stored) (s : Store) (id : Identity)
      → node_id_of s.node_id_file ≡ some n
      → load_pair keys
          (read m.read_private_ok (s.private_keys n))
          (read m.read_public_ok s.public_file)
        ≡ o
      → (finish keys m n o s).0 ≡ inr id
      → IsKept id (finish keys m n o s).1
  unfolding finish
  finish-IsKept m n absent s id e l h = generate-IsKept m n m.generated s id e h
  finish-IsKept m n (broken x) s id e l h = cc
  finish-IsKept m n (pair priv pub_key) s id e l h =
      let i : Identity = record { node_id = n; public_key = pub_key; private_key = priv } in
      inr-IsKept i id s (inr i)
        (record {
          named = e;
          loads =
              load_pair-read m.read_private_ok m.read_public_ok (s.private_keys n) s.public_file
                priv pub_key l;
        })
        refl h

  with_node_id-IsKept :
      (m : Machine) (o : Option Text × Store) (id : Identity)
      → ((n : Text) → o.0 ≡ some n → node_id_of o.1.node_id_file ≡ some n)
      → (with_node_id keys m o).0 ≡ inr id
      → IsKept id (with_node_id keys m o).1
  unfolding with_node_id
  with_node_id-IsKept m (none, s) id e h = cc
  with_node_id-IsKept m (some n, s) id e h =
      finish-IsKept m n
        (load_pair keys (read m.read_private_ok (s.private_keys n))
          (read m.read_public_ok s.public_file))
        s id (e n refl) refl h

  pub load_or_create-IsKept :
      (m : Machine) (s : Store) (id : Identity)
      → IsFresh m.fresh_id
      → (load_or_create keys m s).0 ≡ inr id
      → IsKept id (load_or_create keys m s).1
  unfolding load_or_create
  load_or_create-IsKept m s id f h = elim (Bool-cases m.mkdir_ok) [
    | inr bad ↦ absurd (ground arith)
    | inl made ↦ elim (Bool-cases m.lock_ok) [
      | inr bad ↦ absurd (ground arith)
      | inl locked ↦
          let o = node_id_of (read m.read_node_id_ok s.node_id_file) in
          let g : load_or_create keys m s ≡ with_node_id keys m (take_node_id m s o) =
            simp (made, locked) in
          rw g (
            with_node_id-IsKept m (take_node_id m s o) id
              (λ n q. take_node_id-named m s o n f refl q) (rw g at h))
    ]
  ]

  pub kept_again :
      (m : Machine) (s : Store) (id : Identity)
      → Opens m
      → IsKept id s
      → load_or_create keys m s ≡ (inr id, s)
  unfolding load_or_create with_node_id take_node_id finish read
  kept_again m s id o k =
      simp (o.made, o.locked, o.reads_node_id, o.reads_private, o.reads_public, k.named, k.loads)

  pub load_or_create_again :
      (m later : Machine) (s : Store) (id : Identity)
      → IsFresh m.fresh_id
      → (load_or_create keys m s).0 ≡ inr id
      → Opens later
      → load_or_create keys later (load_or_create keys m s).1
        ≡ (inr id, (load_or_create keys m s).1)
  load_or_create_again m later s id f h o =
      kept_again later (load_or_create keys m s).1 id o (load_or_create-IsKept m s id f h)
