-- ===== src/Idempotency.antt =====
-- app/core/idempotency.py: `IdempotencyManager` over Redis.
pub mod Interleaved
pub mod Cell
pub mod Trace
pub mod Promise
pub mod Refinement
pub mod Exclusion
pub mod Progress
use Prim.Native.String.{◌++◌ as append}
use seemsim_esim_gateway.Prelude.{
  ℕ, String, Bool, false, not, ◌&&◌, Option, none, some, if◌then◌else◌, ◌==◌,
}
use seemsim_esim_gateway.Errors.{
  new_error, idempotency_conflict_error, idempotency_processing_error,
}
use seemsim_esim_gateway.Exec.{Exec, ok, err, raise, pure}
use seemsim_esim_gateway.Redis.{Redis}

pub data IdempotencyStatus : Type 0 where
  processing completed : IdempotencyStatus

-- What is stored under a key.
pub record IdempotencyRecord : Type 0 where
  pub status : IdempotencyStatus
  pub status_code : Option ℕ
  pub response_body : Option String
  pub request_fingerprint : Option String

-- `f"idempotency:{key}"`
abbrev pub redis_key : String → String
redis_key key = append "idempotency:" key

-- `compute_request_fingerprint`, for the hash function `sha256_hex`.
unfoldable pub compute_request_fingerprint : (String → String) → String → String → String → String
compute_request_fingerprint sha256_hex method path body =
    sha256_hex (append method (append path body))

-- `record.request_fingerprint and record.request_fingerprint != request_fingerprint`
abbrev pub conflicts : Option String → String → Bool
conflicts none f = false
conflicts (some s) f = not (s == "") && not (s == f)

abbrev pub locked : String → IdempotencyRecord
locked f = record {
  status = processing;
  status_code = none;
  response_body = none;
  request_fingerprint = some f;
}

module _ (redis : Redis IdempotencyRecord) where
  abbrev pub Keys : Type 0
  Keys = redis.State

  -- The two raises for a record that was found, and its return.
  unfoldable pub check_found : IdempotencyRecord → String → Exec Keys (Option IdempotencyRecord)
  check_found found f =
      if conflicts found.request_fingerprint f
      then raise (
          new_error idempotency_conflict_error
            "Idempotency key already used with a different request")
      else elim found.status [
        | processing ↦ raise (new_error idempotency_processing_error "")
        | completed ↦ pure (some found)
      ]

  module _ (ttl : ℕ) where
    -- `set(…, nx=True)`, and the raise if another request was first.
    unfoldable pub lock : String → String → Exec Keys (Option IdempotencyRecord)
    lock key f r =
        let (acquired, r') = redis.set_nx (redis_key key) (locked f) ttl r in
        if acquired then (ok none, r') else (err (new_error idempotency_processing_error ""), r')

    -- `check_or_lock`
    unfoldable pub check_or_lock : String → String → Exec Keys (Option IdempotencyRecord)
    unfolding check_found lock
    check_or_lock key f r = elim (redis.get (redis_key key) r) [
      | none ↦ lock key f r
      | some found ↦ check_found found f r
    ]

    -- `complete`
    unfoldable pub complete : String → ℕ → String → String → Exec Keys (Unit {0})
    complete key status_code response_body f r = (
      ok tt,
      redis.set (redis_key key)
          (record {
            status = completed;
            status_code = some status_code;
            response_body = some response_body;
            request_fingerprint = some f;
          })
          ttl r,
    )

  -- `release`
  unfoldable pub release : String → Exec Keys (Unit {0})
  release key r = (ok tt, redis.delete (redis_key key) r)
