-- ===== src/Pairing.antt =====
-- internal/pairing/pairing.go: how the device gets its API key. The flow is a machine whose phases
-- are the points where `RunPairing` reads the clock or the server.
pub mod Key
mod Examples
use monitor_agent.Base.{
  ℕ, ◌*◌, ◌⊎◌, inl, inr, Bool, not, Option, none, some, Text, lit, empty, text_eq, is_empty,
  if◌then◌else◌,
}
use monitor_agent.Base.Int.{ℤ, pos, pos_part, neg_part, ◌+ℤ◌, ◌-ℤ◌, ltb_ℤ}
use monitor_agent.Client.{Failure, Outcome, ok, fail}
use monitor_agent.Crypto.{
  Primitives, Envelope, OpenError, Opened, opened, refused, panics, open_envelope, second,
}

pub record RequestResp : Type 0 where
  pub pairing_code : Text
  pub expires_in : ℤ

pub record StatusResp : Type 0 where
  pub status : Text
  pub pairing_code : Text
  pub expires_in : ℤ
  pub api_key_envelope : Option Envelope

pub record PairingCodeInfo : Type 0 where
  pub node_id : Text
  pub hostname : Text
  pub pairing_code : Text
  pub expires_in : ℤ
  pub expires_at : ℤ
  pub status : Text

pub record PairingStatusInfo : Type 0 where
  pub node_id : Text
  pub status : Text
  pub pairing_code : Text
  pub expires_in : ℤ
  pub expires_at : ℤ
  pub api_key_envelope : Option Envelope

pub data PairingError : Type 0 where
  public_key_pem : PairingError
  request_failed status_failed : Failure → PairingError
  envelope_missing decode_envelope key_missing : PairingError
  decrypt_envelope : OpenError → PairingError

-- `time.Duration(n) * time.Second` in nanoseconds, for an n whose product fits 64 bits
abbrev pub seconds_of : ℤ → ℤ
seconds_of n = pos (pos_part n * second) -ℤ pos (neg_part n * second)

-- the destinations of the requests before `Unmarshal`
abbrev pub no_code : RequestResp
no_code = record { pairing_code = empty; expires_in = pos 0 }

abbrev pub no_status : StatusResp
no_status = record {
  status = empty;
  pairing_code = empty;
  expires_in = pos 0;
  api_key_envelope = none;
}

unfoldable pub received : {A : Type 0} → A → Option A → A
received zero_value none = zero_value
received zero_value (some a) = a

code_info : Text → Text → ℕ → RequestResp → PairingCodeInfo
code_info node_id hostname now resp = record {
  node_id = node_id;
  hostname = hostname;
  pairing_code = resp.pairing_code;
  expires_in = resp.expires_in;
  expires_at = pos now +ℤ seconds_of resp.expires_in;
  status = lit "pending";
}

-- `RequestPairingCode`, by the result of `PublicKeyPEM` and how `Post` ends
unfoldable pub request_pairing_code :
    Text → Text → Option Text → Outcome RequestResp → ℕ → PairingError ⊎ PairingCodeInfo
unfolding received code_info
request_pairing_code node_id hostname none posted now = inl public_key_pem
request_pairing_code node_id hostname (some pem) (fail e) now = inl (request_failed e)
request_pairing_code node_id hostname (some pem) (ok r) now =
    inr (code_info node_id hostname now (received no_code r))

status_info : Text → ℕ → StatusResp → PairingStatusInfo
status_info node_id now resp = record {
  node_id = node_id;
  status = resp.status;
  pairing_code = resp.pairing_code;
  expires_in = resp.expires_in;
  expires_at = pos now +ℤ seconds_of resp.expires_in;
  api_key_envelope = resp.api_key_envelope;
}

-- `GetPairingStatus`, by how `Get` ends
unfoldable pub get_pairing_status : Text → Outcome StatusResp → ℕ → PairingError ⊎ PairingStatusInfo
unfolding received status_info
get_pairing_status node_id (fail e) now = inl (status_failed e)
get_pairing_status node_id (ok r) now = inr (status_info node_id now (received no_status r))

-- How `RunPairing` ends.
pub data Ended : Type 0 where
  paired : Text → Ended
  failed : PairingError → Ended
  panicked : Ended

-- Where it stands: before the request, before the test of the deadline, in a poll, at its end.
pub data Phase : Type 0 where
  requesting : Phase
  waiting polling : ℤ → Phase
  ended : Ended → Phase

-- What each phase reads: how the request ends and the clock after it; the clock; how the poll ends
-- and the clock that `Open` reads.
abbrev pub Input : Phase → Type 0
Input requesting = Option Text × Outcome RequestResp × ℕ
Input (waiting deadline) = ℕ
Input (polling deadline) = Outcome StatusResp × ℕ
Input (ended e) = ⊥

module _ (prims : Primitives) (decode_key : Text → Option Text) (priv node_id hostname : Text) where
  -- the case "paired", from its end: the key, the plaintext, the envelope
  unfoldable pub take_api_key : Option Text → Ended
  take_api_key none = failed decode_envelope
  take_api_key (some key) = if is_empty key then failed key_missing else paired key

  unfoldable pub take_opened : Opened → Ended
  unfolding take_api_key
  take_opened (refused e) = failed (decrypt_envelope e)
  take_opened panics = panicked
  take_opened (opened plaintext) = take_api_key (decode_key plaintext)

  unfoldable pub take_key : ℕ → Option Envelope → Ended
  unfolding take_opened
  take_key now none = failed envelope_missing
  take_key now (some env) = take_opened (open_envelope prims priv now env)

  unfoldable pub after_request : PairingError ⊎ PairingCodeInfo → ℕ → Phase
  after_request (inl e) now = ended (failed e)
  after_request (inr info) now = waiting (pos now +ℤ seconds_of info.expires_in)

  unfoldable pub after_poll : ℤ → Outcome StatusResp → ℕ → Phase
  unfolding received
  after_poll deadline (fail e) now = waiting deadline
  after_poll deadline (ok r) now =
      let resp = received no_status r in
      if text_eq resp.status (lit "paired")
      then ended (take_key now resp.api_key_envelope)
      else if text_eq resp.status (lit "expired")
      then requesting
      else waiting deadline

  -- One step of `RunPairing`.
  unfoldable pub step : (p : Phase) → Input p → Phase
  unfolding after_request
  step requesting (pem, posted, now) =
      after_request (request_pairing_code node_id hostname pem posted now) now
  step (waiting deadline) now = if ltb_ℤ (pos now) deadline then polling deadline else requesting
  step (polling deadline) (got, now) = after_poll deadline got now
  step (ended e) i = elim i [ ]

  -- Where `RunPairing` can come to.
  pub data Reached : Phase → Type 0 where
    begin : Reached requesting
    go : {p : Phase} → Reached p → (i : Input p) → Reached (step p i)
