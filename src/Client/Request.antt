-- ===== src/Client/Request.antt =====
-- The client of pkg/client/client.go, and the requests that `Get` and `postOnce` build.
use monitor_agent.Base.{
  not, Option, none, some, List, [], ◌∷◌, ◌++◌, Text, lit, empty, is_empty, if◌then◌else◌,
}
use monitor_agent.Base.Int.{ℤ, pos, leb_ℤ}
use monitor_agent.Client.{RetryConfig}

-- the timeout is in seconds, and is that of the `http.Client` too
pub record Client : Type 0 where
  pub base_url : Text
  pub timeout : ℤ
  pub api_key : Text
  pub retry : RetryConfig

unfoldable pub new : Text → ℤ → RetryConfig → Client
new base_url timeout_sec retry = record {
  base_url = base_url;
  timeout = if leb_ℤ timeout_sec (pos 0) then pos 30 else timeout_sec;
  api_key = empty;
  retry = retry;
}

unfoldable pub set_api_key : Text → Client → Client
set_api_key key c = record c { api_key = key }

pub record Request : Type 0 where
  pub method : Text
  pub url : Text
  pub headers : List (Text × Text)
  pub body : Option Text

-- `if c.APIKey != ""`
unfoldable pub key_header : Client → List (Text × Text)
key_header c = if not (is_empty c.api_key) then (lit "X-API-Key", c.api_key) ∷ [] else []

-- the request of `Get`
unfoldable pub get_request : Client → Text → Request
unfolding key_header
get_request c path = record {
  method = lit "GET";
  url = c.base_url ++ path;
  headers = key_header c;
  body = none;
}

-- The request of `postOnce`: none where `json.Marshal` fails. A body is given by what that returns.
unfoldable pub post_request : Client → Text → Option (Option Text) → Option Request
unfolding key_header
post_request c path (some none) = none
post_request c path none = some (record {
  method = lit "POST";
  url = c.base_url ++ path;
  headers = (lit "Content-Type", lit "application/json") ∷ key_header c;
  body = none;
})
post_request c path (some (some raw)) = some (record {
  method = lit "POST";
  url = c.base_url ++ path;
  headers = (lit "Content-Type", lit "application/json") ∷ key_header c;
  body = some raw;
})
