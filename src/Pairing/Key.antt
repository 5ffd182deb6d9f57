-- ===== src/Pairing/Key.antt =====
-- Where a key of the pairing comes from.
use monitor_agent.Base.{
  ℕ, ◌⊎◌, ◌≡◌, refl, false, Option, none, some, Text, Bool-cases, inl, inr, is_empty, lit, text_eq,
}
use monitor_agent.Base.Int.{ℤ, pos, ltb_ℤ}
use monitor_agent.Client.{Outcome, ok, fail}
use monitor_agent.Crypto.{Primitives, Envelope, Opened, opened, refused, panics, open_envelope}
use monitor_agent.Pairing.{
  paired, Phase, requesting, waiting, polling, ended, Input, take_key, after_request,
  request_pairing_code, after_poll, step, Reached, begin, go, received, no_status, take_api_key,
  take_opened, StatusResp, PairingError, PairingCodeInfo,
}

module _ (prims : Primitives) (decode_key : Text → Option Text) (priv node_id hostname : Text) where
  -- The key is not empty and was read from an envelope that the device's key opened.
  pub record Granted (key : Text) : Type 0 where
    pub env : Envelope
    pub at : ℕ
    pub plaintext : Text
    pub open_ok : open_envelope prims priv at env ≡ opened plaintext
    pub decoded : decode_key plaintext ≡ some key
    pub nonempty : is_empty key ≡ false

  unfoldable pub IsSound : Phase → Type 0
  IsSound (ended (paired key)) = Granted key
  IsSound _ = Unit

  take_api_key-IsSound :
      (env : Envelope) (now : ℕ) (plaintext : Text)
      → open_envelope prims priv now env ≡ opened plaintext
      → (o : Option Text) → decode_key plaintext ≡ o
      → IsSound (ended (take_api_key prims decode_key priv node_id hostname o))
  unfolding IsSound take_api_key
  take_api_key-IsSound env now plaintext h none d = tt
  take_api_key-IsSound env now plaintext h (some key) d = elim (Bool-cases (is_empty key)) [
    | inl y ↦ rw y tt
    | inr n ↦ rw n (record {
      env = env;
      at = now;
      plaintext = plaintext;
      open_ok = h;
      decoded = d;
      nonempty = n;
    })
  ]

  take_opened-IsSound :
      (env : Envelope) (now : ℕ) (o : Opened)
      → open_envelope prims priv now env ≡ o
      → IsSound (ended (take_opened prims decode_key priv node_id hostname o))
  unfolding IsSound take_opened
  take_opened-IsSound env now (opened plaintext) h =
      take_api_key-IsSound env now plaintext h (decode_key plaintext) refl
  take_opened-IsSound env now (refused e) h = tt
  take_opened-IsSound env now panics h = tt

  pub take_key-IsSound :
      (now : ℕ) (env : Option Envelope)
      → IsSound (ended (take_key prims decode_key priv node_id hostname now env))
  unfolding IsSound take_key
  take_key-IsSound now none = tt
  take_key-IsSound now (some env) =
      take_opened-IsSound env now (open_envelope prims priv now env) refl

  after_poll-IsSound :
      (deadline : ℤ) (got : Outcome StatusResp) (now : ℕ)
      → IsSound (after_poll prims decode_key priv node_id hostname deadline got now)
  unfolding IsSound after_poll
  after_poll-IsSound deadline (fail e) now = tt
  after_poll-IsSound deadline (ok r) now =
      let resp = received no_status r in
      elim (Bool-cases (text_eq resp.status (lit "paired"))) [
        | inl y ↦ rw y (take_key-IsSound now resp.api_key_envelope)
        | inr n ↦ elim (Bool-cases (text_eq resp.status (lit "expired"))) [
          | inl y' ↦ rw (n, y') tt
          | inr n' ↦ rw (n, n') tt
        ]
      ]

  after_request-IsSound :
      (o : PairingError ⊎ PairingCodeInfo) (now : ℕ)
      → IsSound (after_request prims decode_key priv node_id hostname o now)
  unfolding IsSound after_request
  after_request-IsSound (inl e) now = tt
  after_request-IsSound (inr info) now = tt

  step-IsSound :
      (p : Phase) (i : Input p) → IsSound (step prims decode_key priv node_id hostname p i)
  unfolding IsSound step
  step-IsSound requesting (pem, posted, now) =
      after_request-IsSound (request_pairing_code node_id hostname pem posted now) now
  step-IsSound (waiting deadline) now = elim (Bool-cases (ltb_ℤ (pos now) deadline)) [
    | inl y ↦ rw y tt
    | inr n ↦ rw n tt
  ]
  step-IsSound (polling deadline) (got, now) = after_poll-IsSound deadline got now
  step-IsSound (ended e) i = elim i [ ]

  Reached-IsSound : (p : Phase) → Reached prims decode_key priv node_id hostname p → IsSound p
  unfolding IsSound
  Reached-IsSound requesting begin = tt
  Reached-IsSound _ (go {p} r i) = step-IsSound p i

  -- Whatever the server answers and the clock shows: if the pairing ends with a key, the key is not
  -- empty and was read from an envelope that the device's private key opened.
  pub paired-Granted :
      (key : Text)
      → Reached prims decode_key priv node_id hostname (ended (paired key))
      → Granted key
  unfolding IsSound
  paired-Granted key r = Reached-IsSound (ended (paired key)) r
