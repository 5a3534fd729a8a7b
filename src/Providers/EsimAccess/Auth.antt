-- ===== src/Providers/EsimAccess/Auth.antt =====
-- app/providers/esim_access/auth.py: the signature of a request. The keyed hash, the clock and the
-- request identifiers are the transport's.
use Prim.Native.String.{◌++◌ as append}
use seemsim_esim_gateway.Prelude.{ℕ, String, List, [], ◌∷◌, Option}
use seemsim_esim_gateway.Python.Text.{upper}
use seemsim_esim_gateway.Python.Json.{Value, Object}

pub record EsimAccessAuth : Type 0 where
  pub access_code : String
  pub secret_key : String

-- What `httpx` reports of one POST: a response with its status and its body, `none` where it is no
-- JSON; a timeout, with the time that passed; or another error.
pub data HttpOutcome : Type 0 where
  response : ℕ → Option Value → HttpOutcome
  timeout : String → HttpOutcome
  http_error : String → HttpOutcome

-- The libraries under the client. The numbers are those of the exchange and of the attempt.
pub record Http : Type 0 where
  pub post : ℕ → ℕ → String → String → List (String × String) → HttpOutcome
  -- `json.dumps(payload, separators=(",", ":"))`
  pub dumps : Object → String
  -- `hmac.new(key, data, sha256).hexdigest()`
  pub hmac_sha256_hex : String → String → String
  pub timestamp : ℕ → ℕ → String
  pub request_id : ℕ → ℕ → String

-- `_build_sign_data`
unfoldable pub build_sign_data : EsimAccessAuth → String → String → String → String
build_sign_data auth timestamp request_id body =
    append timestamp (append request_id (append auth.access_code body))

-- `sign`
unfoldable pub sign : Http → EsimAccessAuth → String → String → String → String
unfolding build_sign_data
sign http auth timestamp request_id body =
    upper (http.hmac_sha256_hex auth.secret_key (build_sign_data auth timestamp request_id body))

-- `build_headers`
unfoldable pub build_headers : Http → EsimAccessAuth → ℕ → ℕ → String → List (String × String)
unfolding sign
build_headers http auth exchange attempt body =
    let timestamp = http.timestamp exchange attempt in
    let request_id = http.request_id exchange attempt in
    ("RT-AccessCode", auth.access_code)
    ∷ ("RT-RequestID", request_id)
    ∷ ("RT-Timestamp", timestamp)
    ∷ ("RT-Signature", sign http auth timestamp request_id body)
    ∷ ("Content-Type", "application/json")
    ∷ []
