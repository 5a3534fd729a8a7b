-- ===== src/Tests/Interleavings.antt =====
-- Three requests with one idempotency key: two find it free, one of them locks it and completes, the
-- third is told the response.
use seemsim_esim_gateway.Prelude.{ℕ, String, ◌≡◌, refl, arith, [], ◌∷◌, some}
use seemsim_esim_gateway.Redis.Memory.{Memory, memory}
use seemsim_esim_gateway.Idempotency.{IdempotencyRecord, check_found, lock, complete}
use seemsim_esim_gateway.Idempotency.Interleaved.{
  Requests, arrived, working, System, miss, look, claim, succeed, Reach, start, later,
}
use seemsim_esim_gateway.Idempotency.Cell.{
  Cell, Allowed, began, returned, told, turned_away, hidden,
}
use seemsim_esim_gateway.Idempotency.Trace.{trace}
use seemsim_esim_gateway.Idempotency.Promise.{Implements}
use seemsim_esim_gateway.Idempotency.Refinement.{Reach-Implements}
use seemsim_esim_gateway.Idempotency.Exclusion.{work_unique, responses_agree}
use seemsim_esim_gateway.Idempotency.Progress.{Decided, fate, request-Decided}

abbrev orders : Requests
orders = record { key = "k"; ttl = 60; code = 201; fingerprint = λ i. "f" }

abbrev before : System (Memory IdempotencyRecord)
before = record { keys = record { now = 0; entries = [] }; phase = λ _. arrived }

abbrev Reached : Type 0
Reached = (s : System (Memory IdempotencyRecord)) × Reach memory orders s

-- Both have missed the key, and the first has locked it.
abbrev locked_by_first : Reached
unfolding seemsim_esim_gateway.Redis.Memory.get seemsim_esim_gateway.Idempotency.Interleaved.update
locked_by_first = (
  _,
  later (later (later (start before refl (λ _. refl)) (miss 0 refl refl)) (miss 1 refl refl))
      (claim 0 _ _ refl refl),
)

-- The second finds it taken, the first completes, and the third is told its response.
abbrev answered_to_third : Reached
unfolding seemsim_esim_gateway.Redis.Memory.get seemsim_esim_gateway.Redis.Memory.set
    seemsim_esim_gateway.Redis.Memory.set_nx seemsim_esim_gateway.Idempotency.Interleaved.update
    seemsim_esim_gateway.Idempotency.Interleaved.after_check lock complete check_found
    locked_by_first
answered_to_third = (
  _,
  later (later (later locked_by_first.1 (claim 1 _ _ refl refl)) (succeed 0 "body" refl))
      (look 2 _ _ _ refl refl refl),
)

work_unique_example : ◌≡◌ {A = ℕ} 0 0
unfolding seemsim_esim_gateway.Redis.Memory.get seemsim_esim_gateway.Redis.Memory.set
    seemsim_esim_gateway.Redis.Memory.set_nx seemsim_esim_gateway.Idempotency.Interleaved.update
    seemsim_esim_gateway.Idempotency.Interleaved.after_check lock complete check_found
    locked_by_first
work_unique_example = work_unique memory orders (omega arith) locked_by_first.1 0 0 refl refl

responses_agree_example : ◌≡◌ {A = String} "body" "body"
unfolding seemsim_esim_gateway.Redis.Memory.get seemsim_esim_gateway.Redis.Memory.set
    seemsim_esim_gateway.Redis.Memory.set_nx seemsim_esim_gateway.Idempotency.Interleaved.update
    seemsim_esim_gateway.Idempotency.Interleaved.after_check lock complete check_found
    locked_by_first answered_to_third
responses_agree_example =
    responses_agree memory orders (omega arith) answered_to_third.1 0 2 "body" "body" refl refl

-- What was seen: the first begins, the second is turned away, the first returns, the third is told.
answered_to_third-events :
    trace memory orders answered_to_third.1
    ≡ told 2 (some "body") ∷ returned 0 "body" ∷ turned_away 1 ∷ began 0 ∷ hidden ∷ hidden ∷ []
unfolding trace answered_to_third
answered_to_third-events = refl

Reach-Implements_example :
    (c : Cell) × Allowed (trace memory orders answered_to_third.1) c
    × Implements memory orders answered_to_third.0 c
Reach-Implements_example = Reach-Implements memory orders (omega arith) answered_to_third.1

-- The second has missed the key, which the first then locked; it is refused as one in progress.
request-Decided_example :
    (c : Cell) × Implements memory orders locked_by_first.0 c
    × Decided memory orders 2 1 locked_by_first.0
        (fate memory orders 1 (locked_by_first.0.phase 1) c)
request-Decided_example = request-Decided memory orders (omega arith) locked_by_first.1 1
