-- ===== src/Providers/EsimAccess/Client.antt =====
-- app/providers/esim_access/client.py: one request to the provider, its classification and the
-- retries. The waits between attempts are not modelled.
pub mod Retries
pub mod Outcomes
use Prim.Native.String.{◌++◌ as append}
use seemsim_esim_gateway.Prelude.{
  ℕ, zero, suc, ◌+◌, String, Bool, true, false, not, ◌&&◌, ◌||◌, Option, none, some, List, [], ◌∷◌,
  contains, if◌then◌else◌, ◌==◌, nat_eq, leb, ◌≡◌, refl,
}
use seemsim_esim_gateway.Prelude.Int.{pos}
use seemsim_esim_gateway.Python.Text.{starts_with}
use seemsim_esim_gateway.Python.Json.{Value, null, bool, int, str, list, dict, Object, find, get}
use seemsim_esim_gateway.Python.Number.{text_of_int}
use seemsim_esim_gateway.Python.Runtime.{Runtime, str_or_empty}
use seemsim_esim_gateway.Errors.{
  Exception, app, builtin, ErrorClass, new_error, default_detail, provider_authentication_error,
  provider_rate_limit_error, provider_validation_error, provider_unavailable_error,
  provider_timeout_error, provider_processing_error,
}
use seemsim_esim_gateway.Exec.{Result, ok, err}
use seemsim_esim_gateway.Providers.EsimAccess.Auth.{
  EsimAccessAuth, Http, HttpOutcome, response, timeout, http_error, build_headers,
}

-- `success is True`
abbrev pub is_true : Option Value → Bool
is_true (some (bool b)) = b
is_true _ = false

-- `f"[{error_code}] {error_msg}"`
abbrev pub bracketed : String → String → String
bracketed code msg = append "[" (append code (append "] " msg))

-- The class of the error for an envelope that is no success.
unfoldable pub classify : String → ErrorClass
classify code =
    if contains code ("000101" ∷ "000102" ∷ "000103" ∷ [])
    then provider_authentication_error
    else if starts_with code "000105"
    then provider_validation_error
    else if code == "404"
    then provider_validation_error
    else if starts_with code "3"
    then provider_validation_error
    else provider_unavailable_error

-- `_handle_response`
unfoldable pub handle_response : Runtime → Object → Result Object
unfolding classify
handle_response rt o =
    let code = str_or_empty rt (get o "errorCode") in
    let msg = str_or_empty rt (get o "errorMsg") in
    if is_true (find o "success") || code == "0"
    then ok o
    else err (new_error (classify code) (bracketed code msg))

-- `_handle_response` on the body of a response.
abbrev handle_body : Runtime → Option Value → Result Object
handle_body rt none = err (builtin "JSONDecodeError" "Expecting value")
handle_body rt (some (dict o)) = handle_response rt o
handle_body rt (some _) = err (builtin "AttributeError" "object has no attribute 'get'")

-- The tests of the status of a response, and the two `except` clauses.
unfoldable pub read_outcome : Runtime → String → HttpOutcome → Result Object
unfolding handle_response
read_outcome rt path (response status body) =
    if nat_eq status 401
    then err (
        app provider_authentication_error "Provider returned HTTP 401 — check AccessCode/secretKey")
    else if nat_eq status 429
    then err (app provider_rate_limit_error (default_detail provider_rate_limit_error))
    else if leb 500 status
    then err (
        app provider_unavailable_error
          (append "Provider returned HTTP " (text_of_int (pos status))))
    else handle_body rt body
read_outcome rt path (timeout elapsed) = err (
    app provider_timeout_error
      (append "Request to " (append path (append " timed out after " (append elapsed "ms")))))
read_outcome rt path (http_error text) =
    err (app provider_unavailable_error (append "HTTP error communicating with provider: " text))

-- `if not path.startswith("/"): path = "/" + path`
abbrev rooted : String → String
rooted path = if starts_with path "/" then path else append "/" path

-- `retry_if_exception_type((ProviderProcessingError, ProviderUnavailableError))`
unfoldable pub is_retryable : Result Object → Bool
is_retryable (err (app provider_processing_error _)) = true
is_retryable (err (app provider_unavailable_error _)) = true
is_retryable _ = false

-- `retry` with `stop_after_attempt`: the attempts from number k on, of which n + 1 are left.
unfoldable pub retry : (ℕ → Result Object) → ℕ → ℕ → Result Object
retry attempt zero k = attempt k
retry attempt (suc n) k =
    let again = retry attempt n (k + 1) in if is_retryable (attempt k) then again else attempt k

module _ (rt : Runtime) (http : Http) (auth : EsimAccessAuth) where
  -- One attempt of `_request_with_retry`.
  unfoldable pub request_once : ℕ → String → Object → ℕ → Result Object
  unfolding read_outcome
  request_once exchange path payload attempt =
      let body = http.dumps payload in
      read_outcome rt (rooted path) (
        http.post exchange attempt (rooted path) body
          (build_headers http auth exchange attempt body))

  -- `request`
  unfoldable pub request : ℕ → String → Object → Result Object
  unfolding request_once retry
  request exchange path payload = retry (request_once exchange path payload) 2 1
