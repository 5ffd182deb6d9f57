-- ===== src/Crypto/Window.antt =====
-- Which envelopes `Open` accepts, by their version and their time.
use monitor_agent.Base.{ℕ, ◌+◌, ◌*◌, ◌≤◌, ◌≡◌, arith, true, false, Text}
use monitor_agent.Base.Int.{pos, pos_part, -ℤ_parts, ltb_ℤ}
use monitor_agent.Crypto.{
  Primitives, Envelope, opened, open_envelope, max_envelope_age, max_skew, second,
}

module _ (prims : Primitives) (priv : Text) where
  -- An envelope that opens has version 1 and, if its timestamp is positive, is at most five minutes
  -- old and at most one minute ahead of the clock.
  pub open_envelope_window :
      (now : ℕ) (env : Envelope) (plaintext : Text)
      → open_envelope prims priv now env ≡ opened plaintext
      → (env.version ≡ pos 1)
        × (ltb_ℤ (pos 0) env.timestamp ≡ true
            → (now ≤ pos_part env.timestamp * second + max_envelope_age)
              × (pos_part env.timestamp * second ≤ now + max_skew))
  unfolding open_envelope
  open_envelope_window now env plaintext h =
      ground (arith, -ℤ_parts (pos now) (pos (pos_part env.timestamp * second)))

  -- An envelope whose timestamp is not positive is opened alike at every time: its age is not limited.
  pub open_envelope_untimed :
      (now later : ℕ) (env : Envelope)
      → ltb_ℤ (pos 0) env.timestamp ≡ false
      → open_envelope prims priv now env ≡ open_envelope prims priv later env
  unfolding open_envelope
  open_envelope_untimed now later env h = ground arith
