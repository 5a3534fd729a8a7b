-- ===== src/Idempotency/Exclusion.antt =====
-- What follows for the requests with one idempotency key.
use seemsim_esim_gateway.Prelude.{ℕ, ◌<◌, String, Bool, true, false, Option, none, some, ◌≡◌, arith}
use seemsim_esim_gateway.Redis.{Redis}
use seemsim_esim_gateway.Idempotency.{IdempotencyRecord}
use seemsim_esim_gateway.Idempotency.Interleaved.{
  Requests, Phase, arrived, missed, working, answered, replayed, refused, System, Reach,
}
use seemsim_esim_gateway.Idempotency.Cell.{Cell, claimed, settled, vacant}
use seemsim_esim_gateway.Idempotency.Promise.{Agrees, content}
use seemsim_esim_gateway.Idempotency.Refinement.{Reach-Implements}

-- Whether the service was called for the request, and did not raise.
abbrev pub has_worked : Phase → Bool
has_worked working = true
has_worked (answered body) = true
has_worked _ = false

-- The body that the caller got.
abbrev pub response : Phase → Option String
response (answered body) = some body
response (replayed found) = found.response_body
response _ = none

-- The request whose cell it is.
abbrev owner : Cell → Option ℕ
owner (claimed i) = some i
owner (settled i body) = some i
owner _ = none

abbrev outcome : Cell → Option String
outcome (settled i body) = some body
outcome _ = none

module _ (redis : Redis IdempotencyRecord) (requests : Requests) where
  worked-owner :
      (c : Cell) (i : ℕ) (p : Phase)
      → Agrees redis requests c i p
      → has_worked p ≡ true
      → owner c ≡ some i
  worked-owner c i arrived a h = absurd (ground arith)
  worked-owner c i missed a h = absurd (ground arith)
  worked-owner c i working a h = ground arith
  worked-owner c i (answered body) a h = ground arith
  worked-owner c i (replayed found) a h = absurd (ground arith)
  worked-owner c i (refused exc) a h = absurd (ground arith)

  replay-outcome :
      (c : Cell) (found : IdempotencyRecord) (j : ℕ) (b body : String)
      → c ≡ settled j b
      → some found ≡ content redis requests c
      → found.response_body ≡ some body
      → outcome c ≡ some body
  replay-outcome vacant found j b body e f h = absurd (ground arith)
  replay-outcome (claimed i) found j b body e f h = absurd (ground arith)
  replay-outcome (settled i d) found j b body e f h = ground arith

  response-outcome :
      (c : Cell) (i : ℕ) (p : Phase) (body : String)
      → Agrees redis requests c i p
      → response p ≡ some body
      → outcome c ≡ some body
  response-outcome c i arrived body a h = absurd (ground arith)
  response-outcome c i missed body a h = absurd (ground arith)
  response-outcome c i working body a h = absurd (ground arith)
  response-outcome c i (answered b) body a h = ground arith
  response-outcome c i (replayed found) body (j, b, e, f) h = replay-outcome c found j b body e f h
  response-outcome c i (refused exc) body a h = absurd (ground arith)

  module _ (lives : 0 < requests.ttl) {s : System redis.State}
      (reached : Reach redis requests s) where
    -- However the commands of the requests interleave, the service is at work, or has returned, for
    -- one of them at most, while the key does not expire.
    pub work_unique :
        (i j : ℕ) → has_worked (s.phase i) ≡ true → has_worked (s.phase j) ≡ true → i ≡ j
    work_unique i j p q =
        let (c, allowed, v) = Reach-Implements redis requests lives reached in
        let first = worked-owner c i (s.phase i) (v.agrees i) p in
        let second = worked-owner c j (s.phase j) (v.agrees j) q in ground arith

    -- However the commands of the requests interleave, all of them that get a response get the same
    -- body, while the key does not expire.
    pub responses_agree :
        (i j : ℕ) (a b : String)
        → response (s.phase i) ≡ some a
        → response (s.phase j) ≡ some b
        → a ≡ b
    responses_agree i j a b p q =
        let (c, allowed, v) = Reach-Implements redis requests lives reached in
        let first = response-outcome c i (s.phase i) a (v.agrees i) p in
        let second = response-outcome c j (s.phase j) b (v.agrees j) q in ground arith
