-- ===== src/Redis.antt =====
-- The commands of Redis that the gateway uses, for values of one type, and what it relies on: `GET`,
-- `SET` with `EX` and `NX`, and `DEL`. Redis is a service: its state is a parameter.
pub mod Memory
use seemsim_esim_gateway.Prelude.{
  ℕ, String, Bool, true, false, Option, none, some, if◌then◌else◌, ◌==◌, ltb, ◌≡◌, ◌<◌, ◌≢◌,
}

pub record Redis (V : Type 0) : Type 1 where
  pub State : Type 0
  -- `get(key)`
  pub get : String → State → Option V
  -- `set(key, value, ex=ttl)`
  pub set : String → V → ℕ → State → State
  -- `set(key, value, nx=True, ex=ttl)`: whether the key was free, and the new state
  pub set_nx : String → V → ℕ → State → Bool × State
  -- `delete(key)`
  pub delete : String → State → State
  -- time passes, in seconds
  pub advance : ℕ → State → State
  -- with `NX`, a key that is there is left alone, and one that is not there is set
  pub set_nx-held :
      (k : String) (u v : V) (ttl : ℕ) (r : State)
      → get k r ≡ some u
      → set_nx k v ttl r ≡ (false, r)
  pub set_nx-free :
      (k : String) (v : V) (ttl : ℕ) (r : State)
      → get k r ≡ none
      → set_nx k v ttl r ≡ (true, set k v ttl r)
  -- a deleted key is not there, and others are as before
  pub get-delete :
      (k j : String) (r : State) → get j (delete k r) ≡ (if k == j then none else get j r)
  -- a key that was set is there, and it is there until its time is over
  pub get-set :
      (k : String) (v : V) (ttl : ℕ) (r : State) → 0 < ttl → get k (set k v ttl r) ≡ some v
  pub get-advance-set :
      (k : String) (v : V) (ttl dt : ℕ) (r : State)
      → get k (advance dt (set k v ttl r)) ≡ (if ltb dt ttl then some v else none)
  -- setting a key leaves the others alone, and time brings no key back
  pub get-set_other :
      (k j : String) (v : V) (ttl : ℕ) (r : State) → k ≢ j → get j (set k v ttl r) ≡ get j r
  pub get-advance_gone :
      (k : String) (dt : ℕ) (r : State) → get k r ≡ none → get k (advance dt r) ≡ none
