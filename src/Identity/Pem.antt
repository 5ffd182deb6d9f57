-- ===== src/Identity/Pem.antt =====
-- internal/identity/crypto.go: keys and their PEM blocks. The crypto packages of Go are parameters.
use monitor_agent.Base.{ℕ, Bool, ◌&&◌, Option, none, some, Text, lit, ◌==◌}

pub record PublicKey : Type 0 where
  pub modulus : ℕ
  pub exponent : ℕ

-- what `x509.ParsePKIXPublicKey` can give
pub data AnyKey : Type 0 where
  rsa_key : PublicKey → AnyKey
  other_key : AnyKey

pub record Packages (PrivateKey : Type 0) : Type 0 where
  -- `pem.EncodeToMemory` of a block by its type and its bytes, and `pem.Decode`
  pub encode_pem : Text → Text → Text
  pub decode_pem : Text → Option Text
  pub marshal_pkcs1 : PrivateKey → Text
  pub parse_pkcs1 : Text → Option PrivateKey
  pub marshal_pkix : PublicKey → Option Text
  pub parse_pkix : Text → Option AnyKey
  pub sha256_hex : Text → Text
  pub public_of : PrivateKey → PublicKey

module _ {PrivateKey : Type 0} (p : Packages PrivateKey) where
  -- `MarshalPrivateKeyPEM`
  unfoldable pub marshal_private_key_pem : PrivateKey → Text
  marshal_private_key_pem key = p.encode_pem (lit "RSA PRIVATE KEY") (p.marshal_pkcs1 key)

  -- `ParsePrivateKeyPEM`
  unfoldable pub parse_private_key_pem : Text → Option PrivateKey
  parse_private_key_pem t = elim (p.decode_pem t) [ none ↦ none | some b ↦ p.parse_pkcs1 b ]

  -- `MarshalPublicKeyPEM`
  unfoldable pub marshal_public_key_pem : PublicKey → Option Text
  marshal_public_key_pem key = elim (p.marshal_pkix key) [
    | none ↦ none
    | some der ↦ some (p.encode_pem (lit "PUBLIC KEY") der)
  ]

  unfoldable pub as_rsa : AnyKey → Option PublicKey
  as_rsa (rsa_key k) = some k
  as_rsa other_key = none

  -- `ParsePublicKeyPEM`
  unfoldable pub parse_public_key_pem : Text → Option PublicKey
  unfolding as_rsa
  parse_public_key_pem t = elim (p.decode_pem t) [
    | none ↦ none
    | some b ↦ elim (p.parse_pkix b) [ none ↦ none | some k ↦ as_rsa k ]
  ]

  -- `Fingerprint`
  unfoldable pub fingerprint : PublicKey → Option Text
  fingerprint key = elim (p.marshal_pkix key) [ none ↦ none | some der ↦ some (p.sha256_hex der) ]

  -- `VerifyKeyPair`: false is its error.
  unfoldable pub verify_key_pair : PrivateKey → PublicKey → Bool
  verify_key_pair priv pub_key =
      ((p.public_of priv).modulus == pub_key.modulus)
      && ((p.public_of priv).exponent == pub_key.exponent)
