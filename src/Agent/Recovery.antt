-- ===== src/Agent/Recovery.antt =====
-- The cache recovery of `runAgent` in cmd/agent/main.go: what was cached in an earlier run is popped
-- once and uploaded, and pushed again if the server refuses it.
pub mod Sent
pub mod Runs
mod Examples
use monitor_agent.Base.{ℕ, ◌+◌, Bool, Option, none, some, List, [], ◌∷◌, Text, if◌then◌else◌}
use monitor_agent.Cache.{Cache, Entry, Kind, push, pop_kind}

-- The cache, and the upload that was tried, if any: its items, and whether it was accepted.
pub record Recovered {ℓ} (A : Type ℓ) : Type ℓ where
  pub cache : Cache
  pub upload : Option (List A × Bool)

abbrev pub recovery_limit : ℕ
recovery_limit = 100

module _ {ℓ} {A : Type ℓ} (decode : Text → Option A) where
  -- the bodies that `json.Unmarshal` accepts, in order
  unfoldable pub decode_all : List Text → List A
  decode_all [] = []
  decode_all (t ∷ ts) = elim (decode t) [ none ↦ decode_all ts | some a ↦ a ∷ decode_all ts ]

module _ {ℓ} {A : Type ℓ} (entry_size : Entry → ℕ) (encode : A → Option Text) (kind : Kind) where
  -- The loop of `Push` calls, whose errors are dropped; `clock n` is the time of the n-th call.
  unfoldable pub push_all : (ℕ → ℕ) → ℕ → List A → Cache → Cache
  push_all clock n [] c = c
  push_all clock n (a ∷ rest) c =
      push_all clock (n + 1) rest (push entry_size kind (clock n) (encode a) c).0

  -- what is done with the decoded items
  unfoldable pub resend : (ℕ → ℕ) → Bool → List A → Cache → Recovered A
  unfolding push_all
  resend clock accepts [] c = record { cache = c; upload = none }
  resend clock accepts (a ∷ rest) c = record {
    cache = if accepts then c else push_all clock 0 (a ∷ rest) c;
    upload = some (a ∷ rest, accepts);
  }

  -- the recovery of one kind; an error of the pop is only logged
  unfoldable pub recover_popped :
      (Text → Option A) → (ℕ → ℕ) → Bool → Option (List Text) → Cache → Recovered A
  recover_popped decode clock accepts none c = record { cache = c; upload = none }
  recover_popped decode clock accepts (some bodies) c =
      resend clock accepts (decode_all decode bodies) c

  unfoldable pub recover : (Text → Option A) → (ℕ → ℕ) → Bool → Cache → Recovered A
  unfolding recover_popped
  recover decode clock accepts c =
      let popped = pop_kind kind recovery_limit c in
      recover_popped decode clock accepts popped.0 popped.1
