-- ===== src/Redis/Memory.antt =====
-- Redis as a list of entries in memory, for runs of the code.
use seemsim_esim_gateway.Prelude.{
  ℕ, ◌+◌, String, Bool, true, false, Option, none, some, List, [], ◌∷◌, if◌then◌else◌, ◌==◌, ltb,
  ◌<◌, ◌≡◌, refl, arith, eq_iff, eq_refl, ◌≢◌,
}
use seemsim_esim_gateway.Redis.{Redis}

-- A value with the time from which it is gone.
pub record Entry (V : Type 0) : Type 0 where
  pub value : V
  pub deadline : ℕ

pub record Memory (V : Type 0) : Type 0 where
  pub now : ℕ
  pub entries : List (String × Entry V)

module _ {V : Type 0} where
  unfoldable pub live : ℕ → Entry V → Option V
  live now e = if ltb now e.deadline then some e.value else none

  unfoldable pub lookup : ℕ → String → List (String × Entry V) → Option V
  unfolding live
  lookup now k [] = none
  lookup now k ((j, e) ∷ rest) = if j == k then live now e else lookup now k rest

  unfoldable without : String → List (String × Entry V) → List (String × Entry V)
  without k [] = []
  without k ((j, e) ∷ rest) =
      let others = without k rest in if j == k then others else (j, e) ∷ others

  -- `get(key)`
  unfoldable pub get : String → Memory V → Option V
  unfolding lookup
  get k r = lookup r.now k r.entries

  -- `set(key, value, ex=ttl)`
  unfoldable pub set : String → V → ℕ → Memory V → Memory V
  unfolding without
  set k v ttl r = record r {
    entries = (k, record { value = v; deadline = r.now + ttl }) ∷ without k r.entries;
  }

  -- `delete(key)`
  unfoldable pub delete : String → Memory V → Memory V
  unfolding without
  delete k r = record r { entries = without k r.entries }

  -- `set(key, value, nx=True, ex=ttl)`: whether the key was free, and the new state.
  unfoldable pub set_nx : String → V → ℕ → Memory V → Bool × Memory V
  set_nx k v ttl r = elim (get k r) [ none ↦ (true, set k v ttl r) | some _ ↦ (false, r) ]

  -- Time passes.
  pub advance : ℕ → Memory V → Memory V
  advance dt r = record r { now = r.now + dt }

  pub set_nx-held :
      (k : String) (u v : V) (ttl : ℕ) (r : Memory V)
      → get k r ≡ some u
      → set_nx k v ttl r ≡ (false, r)
  unfolding set_nx
  set_nx-held k u v ttl r h = rw (h, set_nx) refl

  pub set_nx-free :
      (k : String) (v : V) (ttl : ℕ) (r : Memory V)
      → get k r ≡ none
      → set_nx k v ttl r ≡ (true, set k v ttl r)
  unfolding set_nx
  set_nx-free k v ttl r h = rw (h, set_nx) refl

  lookup-without :
      (now : ℕ) (k j : String) (l : List (String × Entry V))
      → lookup now j (without k l) ≡ (if k == j then none else lookup now j l)
  unfolding lookup without
  lookup-without now k j [] = ground arith
  lookup-without now k j ((i, e) ∷ l) =
      ground (arith, lookup-without now k j l, eq_iff i k, eq_iff i j, eq_iff k j)

  pub get-delete :
      (k j : String) (r : Memory V) → get j (delete k r) ≡ (if k == j then none else get j r)
  unfolding get delete
  get-delete k j r = lookup-without r.now k j r.entries

  -- A key that was set shows its value for `ttl` units of time, and then nothing.
  pub get-advance-set :
      (k : String) (v : V) (ttl dt : ℕ) (r : Memory V)
      → get k (advance dt (set k v ttl r)) ≡ (if ltb dt ttl then some v else none)
  unfolding get set advance
  get-advance-set k v ttl dt r = ground (arith, eq_refl k)

  -- A key that was set for some time is there.
  pub get-set :
      (k : String) (v : V) (ttl : ℕ) (r : Memory V) → 0 < ttl → get k (set k v ttl r) ≡ some v
  unfolding get set
  get-set k v ttl r h = ground (arith, eq_refl k)

  pub get-set_other :
      (k j : String) (v : V) (ttl : ℕ) (r : Memory V) → k ≢ j → get j (set k v ttl r) ≡ get j r
  unfolding get set
  get-set_other k j v ttl r ne = ground (arith, eq_iff k j, lookup-without r.now k j r.entries)

  live-later : (now dt : ℕ) (e : Entry V) → live now e ≡ none → live (now + dt) e ≡ none
  unfolding live
  live-later now dt e h = ground arith

  lookup-later :
      (now dt : ℕ) (k : String) (l : List (String × Entry V))
      → lookup now k l ≡ none
      → lookup (now + dt) k l ≡ none
  unfolding lookup
  lookup-later now dt k [] h = refl
  lookup-later now dt k ((j, e) ∷ l) h =
      ground (arith, live-later now dt e, lookup-later now dt k l)

  -- A key that is gone stays gone.
  pub get-advance_gone :
      (k : String) (dt : ℕ) (r : Memory V) → get k r ≡ none → get k (advance dt r) ≡ none
  unfolding get advance
  get-advance_gone k dt r h = lookup-later r.now dt k r.entries h

  abbrev pub memory : Redis V
  memory = record {
    State = Memory V;
    get = get;
    set = set;
    set_nx = set_nx;
    delete = delete;
    advance = advance;
    set_nx-held = set_nx-held;
    set_nx-free = set_nx-free;
    get-delete = get-delete;
    get-set = get-set;
    get-set_other = get-set_other;
    get-advance_gone = get-advance_gone;
    get-advance-set = get-advance-set;
  }
