-- ===== src/Logging.antt =====
-- app/core/logging.py: what a processor hides before an event is written.
pub mod Redaction
use seemsim_esim_gateway.Prelude.{String, Bool, true, List, [], ◌∷◌, contains, if◌then◌else◌}
use seemsim_esim_gateway.Python.Text.{lower}
use seemsim_esim_gateway.Python.Json.{Value, str, Object, end, field}

-- `SECRET_KEYS`
abbrev pub secret_keys : List String
secret_keys = "secret_key" ∷ "secretkey" ∷ "password" ∷ "token" ∷ "authorization" ∷ "api_key" ∷ []

-- `key.lower() in SECRET_KEYS`
unfoldable pub is_secret : String → Bool
is_secret key = contains (lower key) secret_keys

-- `_redact_secrets`
unfoldable pub redact_secrets : Object → Object
redact_secrets end = end
redact_secrets (field key value event_dict) =
    field key (if is_secret key then str "***REDACTED***" else value) (redact_secrets event_dict)
