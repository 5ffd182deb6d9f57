-- ===== src/Identity.antt =====
-- internal/identity/identity.go: the node's id and key pair. The files of the identity folder and the
-- key store of the platform are the state. Each read and each write of a call may fail: a read that
-- fails is to the code like a file that is absent, and a write that fails leaves whatever the machine
-- says. The functions of internal/identity/crypto.go are parameters here; Identity.Pem has them.
pub mod Stable
pub mod Shared
pub mod KeyStore
pub mod Pem
pub mod Examples
use monitor_agent.Base.{
  ℕ, Bool, not, Option, none, some, ◌⊎◌, inl, inr, List, [], ◌∷◌, ◌++◌, Text, text_eq, is_empty,
  trim_space, if◌then◌else◌,
}

-- Keys and PEM blocks are texts.
pub record Keys : Type 0 where
  pub parse_private : Text → Option Text
  pub parse_public : Text → Option Text
  pub marshal_private : Text → Text
  pub marshal_public : Text → Option Text
  -- the field `PublicKey` of a private key
  pub public_of : Text → Text
  -- `VerifyKeyPair`
  pub verify : Text → Text → Bool

pub record Identity : Type 0 where
  pub node_id : Text
  pub public_key : Text
  pub private_key : Text

-- node_id.txt, public.pem, and the private keys of the key store by node id
pub record Store : Type 0 where
  pub node_id_file : Option Text
  pub public_file : Option Text
  pub private_keys : Text → Option Text

-- What one call meets: which steps succeed, the id of `uuid.New`, the pair of `GenerateKeyPair`.
pub record Machine : Type 0 where
  pub mkdir_ok : Bool
  pub lock_ok : Bool
  pub read_node_id_ok : Bool
  pub read_private_ok : Bool
  pub read_public_ok : Bool
  pub write_node_id_ok : Bool
  pub save_key_ok : Bool
  pub write_public_ok : Bool
  -- what a failed write makes of node_id.txt, of public.pem and of the private key
  pub torn : Option Text → Option Text
  pub fresh_id : Text
  pub generated : Option Text

pub data LoadError : Type 0 where
  mkdir_failed lock_failed write_node_id_failed : LoadError
  parse_private_failed parse_public_failed : LoadError
  generate_failed save_failed marshal_failed write_public_failed : LoadError

-- a read, whose error the code takes for absence
unfoldable pub read : Bool → Option Text → Option Text
read ok file = if ok then file else none

-- the id that node_id.txt holds
unfoldable pub node_id_of : Option Text → Option Text
node_id_of none = none
node_id_of (some bytes) = if is_empty (trim_space bytes) then none else some (trim_space bytes)

-- the end of `loadOrCreateNodeID`, after the read
unfoldable pub take_node_id : Machine → Store → Option Text → Option Text × Store
take_node_id m s (some id) = (some id, s)
take_node_id m s none =
    if m.write_node_id_ok
    then (some m.fresh_id, record s { node_id_file = some (m.fresh_id ++ 10 ∷ []) })
    else (none, record s { node_id_file = m.torn s.node_id_file })

-- What is stored of a pair: none that is usable, one that does not parse, or a pair.
pub data Stored : Type 0 where
  absent : Stored
  broken : LoadError → Stored
  pair : Text → Text → Stored

module _ (keys : Keys) where
  open keys use {parse_private, parse_public, marshal_private, marshal_public, public_of, verify}

  unfoldable pub parsed : Option Text → Option Text → Stored
  parsed none pub_key = broken parse_private_failed
  parsed (some priv) none = broken parse_public_failed
  parsed (some priv) (some pub_key) = if verify priv pub_key then pair priv pub_key else absent

  unfoldable pub load_pair : Option Text → Option Text → Stored
  unfolding parsed
  load_pair (some priv_pem) (some pub_pem) = parsed (parse_private priv_pem) (parse_public pub_pem)
  load_pair none pub_pem = absent
  load_pair (some priv_pem) none = absent

  -- `SavePrivateKey`
  unfoldable pub save_private : Text → Text → Store → Store
  save_private id pem s = record s {
    private_keys = λ other. if text_eq other id then some pem else s.private_keys other;
  }

  -- `SavePrivateKey` that fails
  unfoldable pub tear_private : Machine → Text → Store → Store
  tear_private m id s = record s {
    private_keys =
        λ other. if text_eq other id then m.torn (s.private_keys id) else s.private_keys other;
  }

  -- after the private key is saved
  unfoldable pub save_public :
      Machine → Text → Text → Option Text → Store → (LoadError ⊎ Identity) × Store
  save_public m id priv none s = (inl marshal_failed, s)
  save_public m id priv (some pem) s =
      if m.write_public_ok
      then (
        inr (record { node_id = id; public_key = public_of priv; private_key = priv }),
        record s { public_file = some pem },
      )
      else (inl write_public_failed, record s { public_file = m.torn s.public_file })

  -- part 3 of `LoadOrCreate`
  unfoldable pub generate : Machine → Text → Option Text → Store → (LoadError ⊎ Identity) × Store
  unfolding save_private tear_private save_public
  generate m id none s = (inl generate_failed, s)
  generate m id (some priv) s =
      if m.save_key_ok
      then save_public m id priv (marshal_public (public_of priv))
          (save_private id (marshal_private priv) s)
      else (inl save_failed, tear_private m id s)

  unfoldable pub finish : Machine → Text → Stored → Store → (LoadError ⊎ Identity) × Store
  unfolding generate
  finish m id absent s = generate m id m.generated s
  finish m id (broken e) s = (inl e, s)
  finish m id (pair priv pub_key) s =
      (inr (record { node_id = id; public_key = pub_key; private_key = priv }), s)

  -- parts 2 and 3 of `LoadOrCreate`
  unfoldable pub with_node_id : Machine → Option Text × Store → (LoadError ⊎ Identity) × Store
  with_node_id m (none, s) = (inl write_node_id_failed, s)
  with_node_id m (some id, s) =
      finish m id
        (load_pair (read m.read_private_ok (s.private_keys id))
          (read m.read_public_ok s.public_file))
        s

  -- `LoadOrCreate`
  unfoldable pub load_or_create : Machine → Store → (LoadError ⊎ Identity) × Store
  load_or_create m s =
      if not m.mkdir_ok
      then (inl mkdir_failed, s)
      else if not m.lock_ok
      then (inl lock_failed, s)
      else with_node_id m (take_node_id m s (node_id_of (read m.read_node_id_ok s.node_id_file)))
