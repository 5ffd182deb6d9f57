-- ===== src/Command/Consumer/Origin.antt =====
-- Where an executed command comes from.
use monitor_agent.Base.{
  ℕ, ◌≡◌, refl, ap, arith, Bool, true, false, not, ◌&&◌, some, Option-cases, ◌⊎◌, inl, inr, List,
  [], ◌∷◌, ◌++◌, Text, Bool-cases, Sum-cases, is_empty, if◌then◌else◌, text_eq, lit,
}
use monitor_agent.Crypto.{OpenError, Envelope, Opened, opened, refused, panics, open_envelope}
use monitor_agent.Command.Json.{Fields}
use monitor_agent.Command.Host.{Host}
use monitor_agent.Command.Consumer.{
  Command, Consumer, Decrypted, decrypted_params, Event, ack, report, progress_sent, marked,
  executed, Request, run, reject, crash, decrypt, request_of, send_progress, run_command, answer,
  handle_command,
}

-- The commands that were executed, in order.
pub runs : List Event → List (Text × Fields)
runs [] = []
runs (executed t p ∷ es) = (t, p) ∷ runs es
runs (_ ∷ es) = runs es

runs-append : (es fs : List Event) → runs (es ++ fs) ≡ runs es ++ runs fs
unfolding runs
runs-append [] fs = refl
runs-append (executed t p ∷ es) fs =
    ap (λ (l : List (Text × Fields)). (t, p) ∷ l) (runs-append es fs)
runs-append (report i st o e ∷ es) fs = runs-append es fs
runs-append (ack i ∷ es) fs = runs-append es fs
runs-append (progress_sent r ∷ es) fs = runs-append es fs
runs-append (marked ∷ es) fs = runs-append es fs

runs-send_progress :
    (c : Consumer) (id status : Text) (n : ℕ) (step : Text) (total completed : ℕ)
    → runs (send_progress c id status n step total completed) ≡ []
unfolding send_progress runs
runs-send_progress c id status n step total completed = ground arith

runs-marks : (b : Bool) → runs (if b then marked ∷ [] else []) ≡ []
unfolding runs
runs-marks true = refl
runs-marks false = refl

runs-acks : (b : Bool) (id : Text) → runs (if b then ack id ∷ [] else []) ≡ []
unfolding runs
runs-acks true id = refl
runs-acks false id = refl

-- The payload opens, under the device's key, to a command of this type and with these parameters.
pub record Authentic (c : Consumer) (payload t : Text) (p : Fields) : Type 0 where
  pub key : Text
  pub has_key : c.private_key ≡ some key
  pub envelope : Envelope
  pub is_envelope : c.parse_envelope payload ≡ inr envelope
  pub plaintext : Text
  pub opens : open_envelope c.prims key c.now envelope ≡ opened plaintext
  pub content : Decrypted
  pub decodes : c.parse_decrypted plaintext ≡ inr content
  pub same_type : content.command_type ≡ t
  pub same_params : decrypted_params content ≡ p

Opened-cases :
    (o : Opened)
    → ((t : Text) × (o ≡ opened t)) ⊎ ((e : OpenError) × (o ≡ refused e)) ⊎ (o ≡ panics)
Opened-cases (opened t) = inl (t, refl)
Opened-cases (refused e) = inr (inl (e, refl))
Opened-cases panics = inr (inr refl)

decrypt-Authentic :
    (c : Consumer) (payload t : Text) (p : Fields)
    → decrypt c payload ≡ run t p
    → Authentic c payload t p
unfolding decrypt
decrypt-Authentic c payload t p h = elim (Option-cases c.private_key) [
  | inl missing ↦ absurd (ground arith)
  | inr (key, k) ↦ elim (Sum-cases (c.parse_envelope payload)) [
    | inl (err, e) ↦ absurd (ground arith)
    | inr (env, e) ↦ elim (Opened-cases (open_envelope c.prims key c.now env)) [
      | inr (inl (bad, o)) ↦ absurd (ground arith)
      | inr (inr o) ↦ absurd (ground arith)
      | inl (plaintext, o) ↦ elim (Sum-cases (c.parse_decrypted plaintext)) [
        | inl (err, d) ↦ absurd (ground arith)
        | inr (content, d) ↦ record {
          key = key;
          has_key = k;
          envelope = env;
          is_envelope = e;
          plaintext = plaintext;
          opens = o;
          content = content;
          decodes = d;
          same_type = ground arith;
          same_params = ground arith;
        }
      ]
    ]
  ]
]

-- A command comes in clear and is what was sent, or its payload is authentic.
abbrev pub Origin : Consumer → Command → Text → Fields → Type 0
Origin c cmd t p =
    ((cmd.is_encrypted && not (is_empty cmd.encrypted_payload) ≡ false)
      × (t ≡ cmd.type)
      × (p ≡ cmd.params))
    ⊎ Authentic c cmd.encrypted_payload t p

request_of-Origin :
    (c : Consumer) (cmd : Command) (t : Text) (p : Fields)
    → request_of c cmd ≡ run t p
    → Origin c cmd t p
unfolding request_of
request_of-Origin c cmd t p h =
    elim (Bool-cases (cmd.is_encrypted && not (is_empty cmd.encrypted_payload))) [
      | inl e ↦ inr (decrypt-Authentic c cmd.encrypted_payload t p (rw e at h))
      | inr e ↦ inl (e, ground arith, ground arith)
    ]

module _ (h : Host) (c : Consumer) where
  open h use {State}

  runs-run_command :
      (id t : Text) (p : Fields) (s : State) → runs (run_command h c id t p s).0 ≡ (t, p) ∷ []
  unfolding run_command runs
  runs-run_command id t p s =
      simp (runs-append, runs-send_progress, runs-marks (text_eq t (lit "openclaw_message")))

  answer-Origin :
      (cmd : Command) (r : Request) (s : State)
      → request_of c cmd ≡ r
      → (runs (answer h c cmd.id r s).0 ≡ [])
        ⊎ ((t : Text) × (p : Fields) × (runs (answer h c cmd.id r s).0 ≡ (t, p) ∷ [])
            × Origin c cmd t p)
  unfolding answer runs
  answer-Origin cmd (run t p) s e =
      inr (t, p, runs-run_command cmd.id t p s, request_of-Origin c cmd t p e)
  answer-Origin cmd (reject err) s e = inl refl
  answer-Origin cmd crash s e = inl refl

  -- At most one command is executed for a message from the broker. It is the one sent in clear, where
  -- the message is not marked as encrypted or has no payload, or the one that the payload opens to
  -- under the device's key.
  pub handle_command-Origin :
      (cmd : Command) (s : State)
      → (runs (handle_command h c cmd s).0 ≡ [])
        ⊎ ((t : Text) × (p : Fields) × (runs (handle_command h c cmd s).0 ≡ (t, p) ∷ [])
            × Origin c cmd t p)
  unfolding handle_command
  handle_command-Origin cmd s =
      rw (runs-append, runs-acks) (answer-Origin cmd (request_of c cmd) s refl)
