-- ===== src/Idempotency/Interleaved.antt =====
-- Requests with one idempotency key, each in a process of its own: app/core/idempotency.py as the
-- endpoints of app/api/v1/orders.py call it, with a step for each command that is sent to Redis.
use mathlib.Core.Path.{subst}
use seemsim_esim_gateway.Prelude.{
  ℕ, String, Option, none, some, ◌≡◌, if◌then◌else◌, nat_eq, ◌≢◌, inl, inr, Bool-cases, arith,
}
use seemsim_esim_gateway.Errors.{Exception}
use seemsim_esim_gateway.Exec.{Result, ok, err}
use seemsim_esim_gateway.Redis.{Redis}
use seemsim_esim_gateway.Idempotency.{
  IdempotencyRecord, processing, completed, redis_key, check_found, lock, complete, release,
}

-- The requests with one key: the key, the lifetime of its entries, the status code of a success, and
-- the fingerprint of each request.
pub record Requests : Type 0 where
  pub key : String
  pub ttl : ℕ
  pub code : ℕ
  pub fingerprint : ℕ → String

-- How far a request is.
pub data Phase : Type 0 where
  -- before the `get` of `check_or_lock`
  arrived : Phase
  -- the key was not there; the `set` with `nx` is next
  missed : Phase
  -- the service does its work
  working : Phase
  -- the work returned, and the key is completed with its response
  answered : String → Phase
  -- the response of another request was returned
  replayed : IdempotencyRecord → Phase
  -- an exception, of the check or of the work
  refused : Exception → Phase

-- What an endpoint does next with the result of `check_or_lock`.
unfoldable pub after_check : Result (Option IdempotencyRecord) → Phase
after_check (ok none) = working
after_check (ok (some existing)) = elim existing.status [
  | completed ↦ replayed existing
  | processing ↦ working
]
after_check (err e) = refused e

unfoldable pub update : (ℕ → Phase) → ℕ → Phase → ℕ → Phase
update phase i p j = if nat_eq i j then p else phase j

-- What holds of the new phase at its request, and of the other phases at theirs, holds after an
-- update everywhere.
pub everywhere :
    (P : ℕ → Phase → Type 0) (phase : ℕ → Phase) (i : ℕ) (p : Phase)
    → P i p
    → ((j : ℕ) → i ≢ j → P j (phase j))
    → (j : ℕ) → P j (update phase i p j)
unfolding update
everywhere P phase i p new old j = elim (Bool-cases (nat_eq i j)) [
  | inl e ↦ rw e (subst (λ k. P k p) (ground arith) new)
  | inr e ↦ rw e (old j (λ q. absurd (ground arith)))
]

-- The keys in Redis, and the phase of each request.
pub record System (K : Type 0) : Type 0 where
  pub keys : K
  pub phase : ℕ → Phase

module _ (redis : Redis IdempotencyRecord) (requests : Requests) where
  -- A request does its next command, or its work ends. The key does not expire.
  pub data Step (s : System redis.State) : System redis.State → Type 0 where
    miss :
        (i : ℕ)
        → s.phase i ≡ arrived
        → redis.get (redis_key requests.key) s.keys ≡ none
        → Step s (record { keys = s.keys; phase = update s.phase i missed })
    look :
        (i : ℕ) (found : IdempotencyRecord) (r : Result (Option IdempotencyRecord))
        (k : redis.State)
        → s.phase i ≡ arrived
        → redis.get (redis_key requests.key) s.keys ≡ some found
        → check_found redis found (requests.fingerprint i) s.keys ≡ (r, k)
        → Step s (record { keys = k; phase = update s.phase i (after_check r) })
    claim :
        (i : ℕ) (r : Result (Option IdempotencyRecord)) (k : redis.State)
        → s.phase i ≡ missed
        → lock redis requests.ttl requests.key (requests.fingerprint i) s.keys ≡ (r, k)
        → Step s (record { keys = k; phase = update s.phase i (after_check r) })
    succeed :
        (i : ℕ) (body : String)
        → s.phase i ≡ working
        → Step s (record {
          keys =
              (complete redis requests.ttl requests.key requests.code body
                (requests.fingerprint i)
                s.keys).1;
          phase = update s.phase i (answered body);
        })
    fail :
        (i : ℕ) (exc : Exception)
        → s.phase i ≡ working
        → Step s (record {
          keys = (release redis requests.key s.keys).1;
          phase = update s.phase i (refused exc);
        })

  -- The states that are reached from one in which the key is free and no request has begun.
  pub data Reach : System redis.State → Type 0 where
    start :
        (s : System redis.State)
        → redis.get (redis_key requests.key) s.keys ≡ none
        → ((i : ℕ) → s.phase i ≡ arrived)
        → Reach s
    later : {s t : System redis.State} → Reach s → Step s t → Reach t
