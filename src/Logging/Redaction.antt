-- ===== src/Logging/Redaction.antt =====
-- The values of an event after `_redact_secrets` of app/core/logging.py.
use seemsim_esim_gateway.Prelude.{
  String, if◌then◌else◌, ◌==◌, ◌≡◌, refl, arith, eq_iff, Bool-cases, inl, inr,
}
use mathlib.Core.Option
use seemsim_esim_gateway.Python.Json.{str, Object, end, field, find}
use seemsim_esim_gateway.Logging.{is_secret, redact_secrets}

-- The value of a secret key is hidden, in any writing of the key; every other value is as it was, and
-- no key is added or dropped.
pub find-redact_secrets :
    (key : String) (event_dict : Object)
    → find (redact_secrets event_dict) key
      ≡ Option.map
          (λ value. if is_secret key then str "***REDACTED***" else value)
          (find event_dict key)
unfolding find redact_secrets
find-redact_secrets key end = refl
find-redact_secrets key (field j value rest) = elim (Bool-cases (j == key)) [
  | inl e ↦ ground (arith, eq_iff j key)
  | inr e ↦ ground (arith, find-redact_secrets key rest)
]
