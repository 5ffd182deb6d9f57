-- ===== src/Client.antt =====
-- pkg/client/client.go: the HTTP client. What happens on the wire is a list of outcomes, one for
-- each request that is sent; `json.Marshal` and `json.Unmarshal` enter by their results.
pub mod Retry
pub mod Request
mod Examples
use monitor_agent.Base.{
  ℕ, zero, suc, ◌+◌, ◌-◌, ◌*◌, Bool, true, false, not, ◌&&◌, Option, none, some, List, [], ◌∷◌,
  ◌++◌, Text, is_empty, leb, ltb, ◌==◌, if◌then◌else◌, is_some,
}
use monitor_agent.Base.Int.{ℤ, pos, pos_part, leb_ℤ, ltb_ℤ}

pub data Failure : Type 0 where
  marshal_body new_request do_request read_body unmarshal_response unmarshal_data : Failure
  api_error : ℤ → Text → Failure

-- Durations are in nanoseconds.
pub record RetryConfig : Type 0 where
  pub max_attempts : ℤ
  pub initial_interval : ℤ
  pub max_interval : ℤ

abbrev pub second : ℕ
second = 1_000_000_000

-- The body of a response that `json.Unmarshal` accepts; `data` is none where it is left out.
pub record ApiResponse : Type 0 where
  pub code : ℤ
  pub message : Text
  pub payload : Option Text

-- What comes back for one request: an error of `Do`, an error of `ReadAll`, a body that is no
-- response, or a response.
pub data Wire : Type 0 where
  unreachable broken garbage : Wire
  answer : ApiResponse → Wire

-- How the client ends: the destination holds the decoded data, or is left as it was.
pub data Outcome {ℓ} (A : Type ℓ) : Type ℓ where
  ok : Option A → Outcome A
  fail : Failure → Outcome A

unfoldable pub is_api_error_code : Option Failure → ℤ → Bool
is_api_error_code (some (api_error c m)) code = leb_ℤ c code && leb_ℤ code c
is_api_error_code _ code = false

module _ {ℓ} {A : Type ℓ} (decode : Text → Option A) where
  -- the end of `Get` and of `postOnce`; `wanted` is `dataDest != nil`
  unfoldable pub read_data : Bool → Option Text → Outcome A
  read_data wanted none = ok none
  read_data wanted (some raw) =
      if wanted && not (is_empty raw)
      then elim (decode raw) [ none ↦ fail unmarshal_data | some a ↦ ok (some a) ]
      else ok none

  unfoldable pub read_response : Bool → Wire → Outcome A
  unfolding read_data
  read_response wanted unreachable = fail do_request
  read_response wanted broken = fail read_body
  read_response wanted garbage = fail unmarshal_response
  read_response wanted (answer r) =
      if leb_ℤ r.code (pos 0) && leb_ℤ (pos 0) r.code
      then read_data wanted r.payload
      else fail (api_error r.code r.message)

  -- `Get`; `valid` is false where `http.NewRequest` fails.
  unfoldable pub get : Bool → Bool → Wire → Outcome A
  unfolding read_response
  get valid wanted w = if valid then read_response wanted w else fail new_request

  -- `postOnce`; `marshalled` is false where `json.Marshal` fails on the body.
  unfoldable pub post_once : Bool → Bool → Bool → Wire → Outcome A
  unfolding read_response
  post_once marshalled valid wanted w =
      if not marshalled
      then fail marshal_body
      else if valid
      then read_response wanted w
      else fail new_request

-- the defaults at the head of `Post`
unfoldable pub attempts_of : RetryConfig → ℕ
attempts_of r = if leb_ℤ r.max_attempts (pos 0) then 3 else pos_part r.max_attempts

unfoldable pub interval_of : RetryConfig → ℕ
interval_of r = if leb_ℤ r.initial_interval (pos 0) then second else pos_part r.initial_interval

unfoldable pub max_interval_of : RetryConfig → ℕ
max_interval_of r = if leb_ℤ r.max_interval (pos 0) then 30 * second else pos_part r.max_interval

-- the interval of the next round
unfoldable pub next_interval : ℕ → ℕ → ℕ
next_interval interval max_interval =
    if ltb interval max_interval
    then (if ltb max_interval (interval * 2) then max_interval else interval * 2)
    else interval

-- What `Post` does: how it ends, and how long it sleeps before each retry.
pub record Posted {ℓ} (A : Type ℓ) : Type ℓ where
  pub result : Option Failure
  pub received : Option A
  pub sleeps : List ℕ
  pub sent : ℕ

module _ {ℓ} {A : Type ℓ} (once : ℕ → Outcome A) where
  -- The rounds of `Post`: `left` of them are to come, and `attempt` are over. `once n` is how the
  -- n-th request ends.
  unfoldable pub rounds : ℕ → ℕ → ℕ → ℕ → Option Failure → Posted A
  unfolding next_interval
  rounds zero attempt interval max_interval last = record {
    result = last;
    received = none;
    sleeps = [];
    sent = attempt;
  }
  rounds (suc left) attempt interval max_interval last =
      let later = λ (e : Failure).
        rounds left (attempt + 1) (next_interval interval max_interval) max_interval (some e) in
      elim (once attempt) [
        | ok v ↦ record { result = none; received = v; sleeps = []; sent = attempt + 1 }
        | fail e ↦
            if left == 0
            then record { result = some e; received = none; sleeps = []; sent = attempt + 1 }
            else (let rest = later e in record rest { sleeps = interval ∷ rest.sleeps })
      ]

  -- `Post`
  unfoldable pub post : RetryConfig → Posted A
  unfolding rounds attempts_of interval_of max_interval_of
  post r = rounds (attempts_of r) 0 (interval_of r) (max_interval_of r) none
