-- ===== src/Errors.antt =====
-- app/core/errors.py: the exception hierarchy, and app/api/error_handlers.py: how an exception
-- becomes a response.
use seemsim_esim_gateway.Prelude.{ℕ, String, Bool, true, false, if◌then◌else◌, ◌==◌}
use seemsim_esim_gateway.Python.Json.{Object, null, bool, str, dict, end, field}

-- The classes of errors.py.
pub data ErrorClass : Type 0 where
  app_error : ErrorClass
  provider_error provider_authentication_error provider_rate_limit_error : ErrorClass
  provider_validation_error provider_unavailable_error provider_timeout_error : ErrorClass
  provider_processing_error provider_capability_unavailable_error : ErrorClass
  resource_not_found_error integration_conflict_error : ErrorClass
  idempotency_conflict_error idempotency_processing_error : ErrorClass
  validation_error authentication_error authorization_error : ErrorClass

-- The class attribute `error_code`.
abbrev pub error_code : ErrorClass → String
error_code app_error = "INTERNAL_ERROR"
error_code provider_error = "PROVIDER_ERROR"
error_code provider_authentication_error = "PROVIDER_AUTH_ERROR"
error_code provider_rate_limit_error = "PROVIDER_RATE_LIMIT"
error_code provider_validation_error = "PROVIDER_VALIDATION_ERROR"
error_code provider_unavailable_error = "PROVIDER_UNAVAILABLE"
error_code provider_timeout_error = "PROVIDER_TIMEOUT"
error_code provider_processing_error = "PROVIDER_PROCESSING"
error_code provider_capability_unavailable_error = "PROVIDER_CAPABILITY_UNAVAILABLE"
error_code resource_not_found_error = "RESOURCE_NOT_FOUND"
error_code integration_conflict_error = "INTEGRATION_CONFLICT"
error_code idempotency_conflict_error = "IDEMPOTENCY_CONFLICT"
error_code idempotency_processing_error = "IDEMPOTENCY_PROCESSING"
error_code validation_error = "VALIDATION_ERROR"
error_code authentication_error = "AUTHENTICATION_ERROR"
error_code authorization_error = "AUTHORIZATION_ERROR"

-- The class attribute `status_code`.
abbrev pub status_code : ErrorClass → ℕ
status_code app_error = 500
status_code provider_error = 502
status_code provider_authentication_error = 502
status_code provider_rate_limit_error = 429
status_code provider_validation_error = 422
status_code provider_unavailable_error = 503
status_code provider_timeout_error = 504
status_code provider_processing_error = 202
status_code provider_capability_unavailable_error = 501
status_code resource_not_found_error = 404
status_code integration_conflict_error = 409
status_code idempotency_conflict_error = 409
status_code idempotency_processing_error = 409
status_code validation_error = 422
status_code authentication_error = 401
status_code authorization_error = 403

-- The class attribute `detail`.
abbrev pub default_detail : ErrorClass → String
default_detail app_error = "An unexpected error occurred"
default_detail provider_error = "Provider communication error"
default_detail provider_authentication_error = "Provider authentication failed"
default_detail provider_rate_limit_error = "Provider rate limit exceeded"
default_detail provider_validation_error = "Provider rejected request as invalid"
default_detail provider_unavailable_error = "Provider service is unavailable"
default_detail provider_timeout_error = "Provider request timed out"
default_detail provider_processing_error = "Provider is still processing the request"
default_detail provider_capability_unavailable_error =
    "This capability is not supported by the current provider"
default_detail resource_not_found_error = "Resource not found"
default_detail integration_conflict_error = "Integration conflict"
default_detail idempotency_conflict_error =
    "Idempotency key conflict: same key used with different request"
default_detail idempotency_processing_error =
    "Request with this idempotency key is currently being processed"
default_detail validation_error = "Request validation failed"
default_detail authentication_error = "Authentication required"
default_detail authorization_error = "Insufficient permissions"

-- The subclasses of `ProviderError`, itself among them.
abbrev pub is_provider_error : ErrorClass → Bool
is_provider_error provider_error = true
is_provider_error provider_authentication_error = true
is_provider_error provider_rate_limit_error = true
is_provider_error provider_validation_error = true
is_provider_error provider_unavailable_error = true
is_provider_error provider_timeout_error = true
is_provider_error provider_processing_error = true
is_provider_error provider_capability_unavailable_error = true
is_provider_error _ = false

-- An exception: one of the application's, with its detail, or one of Python or of a library, with
-- the name of its class and its message.
pub data Exception : Type 0 where
  app : ErrorClass → String → Exception
  builtin : String → String → Exception

-- `AppError.__init__`: an empty detail is replaced by that of the class.
abbrev pub new_error : ErrorClass → String → Exception
new_error c detail = app c (if detail == "" then default_detail c else detail)

-- `str(exc)`
abbrev pub message : Exception → String
message (app c detail) = detail
message (builtin name text) = text

-- `except ProviderError`
abbrev pub catches_provider_error : Exception → Bool
catches_provider_error (app c detail) = is_provider_error c
catches_provider_error (builtin name text) = false

-- `AppError.to_dict`
unfoldable pub to_dict : ErrorClass → String → Object
to_dict c detail = field "error_code" (str (error_code c)) (field "detail" (str detail) end)

pub record Response : Type 0 where
  pub status : ℕ
  pub content : Object

failure : Object → Object
failure error = field "success" (bool false) (field "data" null (field "error" (dict error) end))

-- `app_error_handler` and `unhandled_error_handler`.
unfoldable pub error_response : Exception → Response
unfolding to_dict failure
error_response (app c detail) = record {
  status = status_code c;
  content = failure (to_dict c detail);
}
error_response (builtin name text) = record {
  status = 500;
  content = failure (
      field "error_code" (str "INTERNAL_ERROR")
        (field "detail" (str "An unexpected error occurred") end));
}
