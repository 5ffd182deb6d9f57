-- ===== src/Crypto.antt =====
-- pkg/crypto/envelope.go: the hybrid envelope. The primitives of Go's crypto packages and base64 are
-- parameters; a call of `gcm.Open` with a nonce of another length than 12 panics, as documented.
pub mod Window
pub mod RoundTrip
pub mod Examples
use monitor_agent.Base.{
  ℕ, ◌-◌, ◌*◌, ◌/◌, Bool, true, false, not, ◌&&◌, ◌||◌, Option, none, some, Text, length, ◌==◌,
  if◌then◌else◌,
}
use monitor_agent.Base.Int.{ℤ, pos, negsuc, pos_part, neg_part, ◌-ℤ◌, ltb_ℤ}

-- Keys and byte strings are texts of bytes.
pub record Primitives : Type 0 where
  pub encode64 : Text → Text
  pub decode64 : Text → Option Text
  -- `rsa.EncryptOAEP` by a public key, with the random bytes that it reads
  pub rsa_encrypt : Text → Text → Text → Option Text
  -- `rsa.DecryptOAEP` by a private key
  pub rsa_decrypt : Text → Text → Option Text
  -- `gcm.Seal` and `gcm.Open` by a session key and a nonce
  pub gcm_seal : Text → Text → Text → Text
  pub gcm_open : Text → Text → Text → Option Text

pub record Envelope : Type 0 where
  pub version : ℤ
  pub encrypted_key : Text
  pub nonce : Text
  pub ciphertext : Text
  pub timestamp : ℤ

pub data OpenError : Type 0 where
  unsupported_version expired in_future : OpenError
  decode_key decode_nonce decode_ciphertext : OpenError
  decrypt_key aes_cipher gcm_decrypt : OpenError

pub data Opened : Type 0 where
  opened : Text → Opened
  refused : OpenError → Opened
  panics : Opened

abbrev pub second : ℕ
second = 1_000_000_000

abbrev pub max_envelope_age : ℕ
max_envelope_age = 300 * second

abbrev pub max_skew : ℕ
max_skew = 60 * second

-- `time.Since(time.Unix(timestamp, 0))` at the clock `now` in nanoseconds, for a positive timestamp
abbrev pub age_of : ℕ → ℤ → ℤ
age_of now timestamp = pos now -ℤ pos (pos_part timestamp * second)

-- The keys that `aes.NewCipher` takes.
abbrev pub is_aes_key : Text → Bool
is_aes_key key = length key == 16 || length key == 24 || length key == 32

module _ (prims : Primitives) where
  open prims use {encode64, decode64, rsa_encrypt, rsa_decrypt, gcm_seal, gcm_open}

  -- the last part of `Open`, with the nonce and the ciphertext decoded
  pub open_payload : Text → Text → Option Text → Opened
  open_payload nonce ciphertext none = refused decrypt_key
  open_payload nonce ciphertext (some session_key) =
      if not (is_aes_key session_key)
      then refused aes_cipher
      else if not (length nonce == 12)
      then panics
      else elim (gcm_open session_key nonce ciphertext) [
        | none ↦ refused gcm_decrypt
        | some plaintext ↦ opened plaintext
      ]

  -- `Open` behind the checks of the version and of the time
  pub open_fields : Text → Envelope → Opened
  unfolding open_payload
  open_fields priv env = elim (decode64 env.encrypted_key) [
    | none ↦ refused decode_key
    | some key ↦ elim (decode64 env.nonce) [
      | none ↦ refused decode_nonce
      | some nonce ↦ elim (decode64 env.ciphertext) [
        | none ↦ refused decode_ciphertext
        | some ciphertext ↦ open_payload nonce ciphertext (rsa_decrypt priv key)
      ]
    ]
  ]

  -- `Open`
  unfoldable pub open_envelope : Text → ℕ → Envelope → Opened
  unfolding open_fields
  open_envelope priv now env =
      let age = age_of now env.timestamp in
      let timed = ltb_ℤ (pos 0) env.timestamp in
      if ltb_ℤ env.version (pos 1) || ltb_ℤ (pos 1) env.version
      then refused unsupported_version
      else if timed && ltb_ℤ (pos max_envelope_age) age
      then refused expired
      else if timed && ltb_ℤ age (negsuc (max_skew - 1))
      then refused in_future
      else open_fields priv env

  -- `Seal`. The session key, the nonce and the bytes that the encryption reads are random; `none` is
  -- an error of `rsa.EncryptOAEP`.
  unfoldable pub seal : Text → Text → Text → Text → ℕ → Text → Option Envelope
  seal pub_key session_key nonce noise now plaintext =
      elim (rsa_encrypt noise pub_key session_key) [
        | none ↦ none
        | some encrypted_key ↦ some (record {
          version = pos 1;
          encrypted_key = encode64 encrypted_key;
          nonce = encode64 nonce;
          ciphertext = encode64 (gcm_seal session_key nonce plaintext);
          timestamp = pos (now / second);
        })
      ]
