-- ===== src/Crypto/Examples.antt =====
-- The envelope over primitives that hide nothing.
use monitor_agent.Base.{◌+◌, ◌*◌, ◌≤◌, ◌≡◌, refl, sym, arith, true, some, [], Text, lit}
use monitor_agent.Base.Int.{ℤ, ◌-ℤ◌, pos, pos_part, ltb_ℤ}
use monitor_agent.Crypto.{
  Primitives, Envelope, opened, open_envelope, seal, max_envelope_age, max_skew, second,
}
use monitor_agent.Crypto.RoundTrip.{Laws, open_envelope-seal}
use monitor_agent.Crypto.Window.{open_envelope_window}

abbrev pub bare : Primitives
bare = record {
  encode64 = λ t. t;
  decode64 = λ t. some t;
  rsa_encrypt = λ noise key t. some t;
  rsa_decrypt = λ key t. some t;
  gcm_seal = λ key nonce t. t;
  gcm_open = λ key nonce t. some t;
}

some_inj : (a b : Text) → some a ≡ some b → some b ≡ some a
some_inj a b e = sym e

bare-Laws : Laws bare (lit "public") (lit "private")
bare-Laws = record {
  decode-encode = λ t. refl;
  decrypt-encrypt = λ noise key c e. some_inj key c e;
  open-seal = λ key nonce t. refl;
}

abbrev pub key32 : Text
key32 = lit "0123456789abcdef0123456789abcdef"

abbrev pub nonce12 : Text
nonce12 = lit "0123456789ab"

abbrev pub sealed : ℤ → Envelope
sealed timestamp = record {
  version = pos 1;
  encrypted_key = key32;
  nonce = nonce12;
  ciphertext = lit "restart";
  timestamp = timestamp;
}

-- Sealed at second 1000 and opened four minutes later.
open_envelope-seal_example :
    open_envelope bare (lit "private") (1240 * second) (sealed (pos 1000)) ≡ opened (lit "restart")
open_envelope-seal_example =
    open_envelope-seal bare (lit "public") (lit "private") bare-Laws key32 nonce12 []
      (1000 * second) (1240 * second) (lit "restart") (sealed (pos 1000)) (unfold lit in refl)
      (unfold lit in refl) (unfold seal in refl) (omega arith) (omega arith)

opens_now :
    open_envelope bare (lit "private") (1240 * second) (sealed (pos 1000)) ≡ opened (lit "restart")
unfolding open_envelope lit ◌-ℤ◌
opens_now = refl

open_envelope_window_example :
    ((sealed (pos 1000)).version ≡ pos 1)
    × (ltb_ℤ (pos 0) (sealed (pos 1000)).timestamp ≡ true
        → (1240 * second ≤ pos_part (sealed (pos 1000)).timestamp * second + max_envelope_age)
          × (pos_part (sealed (pos 1000)).timestamp * second ≤ 1240 * second + max_skew))
open_envelope_window_example =
    open_envelope_window bare (lit "private") (1240 * second) (sealed (pos 1000)) (lit "restart")
      opens_now
