-- ===== src/Agent/Runtime/Again.antt =====
-- The commands of the program share the configuration and the identity.
use monitor_agent.Base.{◌≡◌, refl, ap, ◌∙◌, Bool, Option, inl, inr, ◌⊎◌, text_eq_refl, Sum-cases}
use monitor_agent.Config.{Config, Process, load}
use monitor_agent.Identity.{Keys, Identity, Machine, Store, LoadError, load_or_create}
use monitor_agent.Identity.Stable.{KeyLaws, IsFresh, Opens, load_or_create_again}
use monitor_agent.Agent.Runtime.{Stores, with_identity, load_runtime}

abbrev pub Outcome : Type 0
Outcome = (LoadError ⊎ Identity) × Store

identity_of :
    (cfg wanted : Config) (r : Outcome) (stores : Stores) (id : Identity)
    → (with_identity cfg r stores).0 ≡ inr (wanted, id)
    → (cfg ≡ wanted) × (r.0 ≡ inr id)
unfolding with_identity
identity_of cfg wanted (inl e, s) stores id h = absurd (cc)
identity_of cfg wanted (inr i, s) stores id h = (cc, cc)

pub identity_given :
    (cfg : Config) (r : Outcome) (stores : Stores) (id : Identity)
    → r.0 ≡ inr id
    → (with_identity cfg r stores).0 ≡ inr (cfg, id)
unfolding with_identity
identity_given cfg (inl e, s) stores id h = absurd (cc)
identity_given cfg (inr i, s) stores id h = cc

store_left :
    (cfg : Config) (r : Outcome) (stores : Stores)
    → (with_identity cfg r stores).1 cfg.device.data_dir ≡ r.1
unfolding with_identity
store_left cfg (inl e, s) stores = rw (text_eq_refl cfg.device.data_dir) refl
store_left cfg (inr i, s) stores = rw (text_eq_refl cfg.device.data_dir) refl

module _ (keys : Keys) (laws : KeyLaws keys) (p : Process) (readable : Bool)
    (decoded : Option Config) where
  pub load_runtime-load :
      (m : Machine) (stores : Stores) (cfg : Config)
      → load p readable decoded ≡ inr cfg
      → load_runtime keys p readable decoded m stores
        ≡ with_identity cfg (load_or_create keys m (stores cfg.device.data_dir)) stores
  unfolding load_runtime
  load_runtime-load m stores cfg e = rw (e, load_runtime) refl

  same_load :
      (m : Machine) (stores : Stores) (cfg : Config) (id : Identity)
      → (load_runtime keys p readable decoded m stores).0 ≡ inr (cfg, id)
      → load p readable decoded ≡ inr cfg
  unfolding load_runtime
  same_load m stores cfg id h = elim (Sum-cases (load p readable decoded)) [
    | inl (e, l) ↦ absurd (cc (rw (l, load_runtime) at h))
    | inr (c, l) ↦
        let (same, _) = identity_of c cfg _ stores id (rw (l, load_runtime) at h) in l ∙ ap inr same
  ]

  -- If parsing undoes marshalling, a generated pair matches, and a fresh id is not blank and has no
  -- space at its ends: the configuration and the identity that one call of `loadRuntime` returns are
  -- returned by a later call that reads the same configuration and can make and lock the folder and
  -- read its files.
  pub load_runtime_again :
      (m later : Machine) (stores : Stores) (cfg : Config) (id : Identity)
      → IsFresh m.fresh_id
      → (load_runtime keys p readable decoded m stores).0 ≡ inr (cfg, id)
      → Opens later
      → (load_runtime keys p readable decoded later
          (load_runtime keys p readable decoded m stores).1).0
        ≡ inr (cfg, id)
  load_runtime_again m later stores cfg id f h o =
      let l = same_load m stores cfg id h in
      let first = load_runtime-load m stores cfg l in
      let before = stores cfg.device.data_dir in
      let (_, created) =
        identity_of cfg cfg (load_or_create keys m before) stores id (rw first at h) in
      let left = store_left cfg (load_or_create keys m before) stores in
      let again = load_or_create_again keys laws m later before id f created o in
      rw first (
        rw (load_runtime-load later _ cfg l)
          (identity_given cfg _ _ id (rw left (ap (λ (o : Outcome). o.0) again))))
