-- ===== src/Crypto/RoundTrip.antt =====
-- `Open` undoes `Seal`.
use monitor_agent.Base.{
  ℕ, ◌+◌, ◌*◌, ◌/◌, ◌≤◌, ◌≡◌, arith, some, Text, length, Option-cases, inl, inr,
}
use monitor_agent.Base.Int.{pos, -ℤ_parts}
use monitor_agent.Crypto.{
  Primitives, Envelope, opened, open_envelope, open_fields, open_payload, seal, max_envelope_age,
  max_skew, second,
}

-- What the crypto packages promise of a key pair: decoding undoes encoding, and decryption undoes
-- encryption.
pub record Laws (prims : Primitives) (pub_key priv : Text) : Type 0 where
  pub decode-encode : (t : Text) → prims.decode64 (prims.encode64 t) ≡ some t
  pub decrypt-encrypt :
      (noise key c : Text)
      → prims.rsa_encrypt noise pub_key key ≡ some c
      → prims.rsa_decrypt priv c ≡ some key
  pub open-seal :
      (key nonce t : Text) → prims.gcm_open key nonce (prims.gcm_seal key nonce t) ≡ some t

module _ (prims : Primitives) (pub_key priv : Text) (laws : Laws prims pub_key priv) where
  fields-seal :
      (session_key nonce noise : Text) (sealed_at : ℕ) (plaintext : Text) (env : Envelope)
      → length session_key ≡ 32
      → length nonce ≡ 12
      → seal prims pub_key session_key nonce noise sealed_at plaintext ≡ some env
      → (open_fields prims priv env ≡ opened plaintext)
        × (env.version ≡ pos 1)
        × (env.timestamp ≡ pos (sealed_at / second))
  unfolding seal open_fields open_payload
  fields-seal session_key nonce noise sealed_at plaintext env k n h =
      elim (Option-cases (prims.rsa_encrypt noise pub_key session_key)) [
        | inl failed ↦ absurd (ground arith)
        | inr (c, e) ↦
            let box = prims.gcm_seal session_key nonce plaintext in
            ground (
              arith,
              laws.decode-encode c,
              laws.decode-encode nonce,
              laws.decode-encode box,
              laws.decrypt-encrypt noise session_key c e,
              laws.open-seal session_key nonce plaintext,
            )
      ]

  -- If decoding undoes encoding and decryption undoes encryption, what `Seal` made with a key of 32
  -- bytes and a nonce of 12 is opened to its plaintext, as long as the clock is at most one minute
  -- behind and five minutes past the second of sealing.
  pub open_envelope-seal :
      (session_key nonce noise : Text) (sealed_at now : ℕ) (plaintext : Text) (env : Envelope)
      → length session_key ≡ 32
      → length nonce ≡ 12
      → seal prims pub_key session_key nonce noise sealed_at plaintext ≡ some env
      → now ≤ sealed_at / second * second + max_envelope_age
      → sealed_at / second * second ≤ now + max_skew
      → open_envelope prims priv now env ≡ opened plaintext
  unfolding open_envelope
  open_envelope-seal session_key nonce noise sealed_at now plaintext env k n h lo hi =
      let (f, v, t) = fields-seal session_key nonce noise sealed_at plaintext env k n h in
      let d = -ℤ_parts (pos now) (pos (sealed_at / second * second)) in
      simp (v, t) (ground (arith, f, d))
