-- ===== src/Idempotency/Cell.antt =====
-- What an idempotency key promises, whatever Redis does: a cell that one request claims, and that it
-- leaves empty again or settles with its response, once and for all; who finds the cell taken is
-- turned away, and who finds it settled may be told its response.
use seemsim_esim_gateway.Prelude.{ℕ, String, Option, some, List, [], ◌∷◌, ◌≡◌, ◌≢◌}

pub data Cell : Type 0 where
  vacant : Cell
  claimed : ℕ → Cell
  settled : ℕ → String → Cell

-- What is seen of a request: its work begins, returns or raises, it is told the response of another
-- request, it is turned away before its work, or nothing is seen.
pub data Event : Type 0 where
  began : ℕ → Event
  returned : ℕ → String → Event
  gave_up : ℕ → Event
  told : ℕ → Option String → Event
  turned_away : ℕ → Event
  hidden : Event

-- The moves of a cell, with what is seen.
pub data Move : Event → Cell → Cell → Type 0 where
  take : (i : ℕ) → Move (began i) vacant (claimed i)
  give_up : (i : ℕ) → Move (gave_up i) (claimed i) vacant
  settle : (i : ℕ) (body : String) → Move (returned i body) (claimed i) (settled i body)
  tell :
      (i j : ℕ) (body : String) (response : Option String)
      → response ≡ some body
      → Move (told j response) (settled i body) (settled i body)
  turn_away : (j : ℕ) (c : Cell) → c ≢ vacant → Move (turned_away j) c c
  stay : (c : Cell) → Move hidden c c

-- The cells that an empty one becomes, with all that is seen on the way, the latest event first.
pub data Allowed : List Event → Cell → Type 0 where
  empty : Allowed [] vacant
  moved :
      {events : List Event} {e : Event} {c d : Cell}
      → Allowed events c
      → Move e c d
      → Allowed (e ∷ events) d
