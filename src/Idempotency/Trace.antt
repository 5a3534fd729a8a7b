-- ===== src/Idempotency/Trace.antt =====
-- What is seen of interleaved requests with one key, step by step.
use seemsim_esim_gateway.Prelude.{ℕ, List, [], ◌∷◌}
use seemsim_esim_gateway.Redis.{Redis}
use seemsim_esim_gateway.Idempotency.{IdempotencyRecord}
use seemsim_esim_gateway.Idempotency.Interleaved.{
  Requests, Phase, working, replayed, refused, after_check, System, Step, miss, look, claim,
  succeed, fail, Reach, start, later,
}
use seemsim_esim_gateway.Idempotency.Cell.{
  Event, began, returned, gave_up, told, turned_away, hidden,
}

-- What is seen of a request that a check brought into this phase.
abbrev pub checked : ℕ → Phase → Event
checked i working = began i
checked i (replayed found) = told i found.response_body
checked i (refused exc) = turned_away i
checked i _ = hidden

module _ (redis : Redis IdempotencyRecord) (requests : Requests) where
  unfoldable pub event : {s t : System redis.State} → Step redis requests s t → Event
  event (miss i p e) = hidden
  event (look i found r k p e h) = checked i (after_check r)
  event (claim i r k p h) = checked i (after_check r)
  event (succeed i body p) = returned i body
  event (fail i exc p) = gave_up i

  -- All that is seen, the latest event first.
  unfoldable pub trace : {s : System redis.State} → Reach redis requests s → List Event
  unfolding event
  trace (start s free idle) = []
  trace (later reached step) = event step ∷ trace reached
