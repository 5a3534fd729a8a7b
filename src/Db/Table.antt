-- ===== src/Db/Table.antt =====
-- Rows with a text key: lookup and update in place, as the session's identity map does for an object
-- with that key.
use seemsim_esim_gateway.Prelude.{
  String, Option, none, some, List, [], ◌∷◌, ◌++◌, if◌then◌else◌, ◌==◌, eq_iff, eq_refl, arith, ◌≡◌,
}
use seemsim_esim_gateway.Errors.{builtin}
use seemsim_esim_gateway.Exec.{Result, ok, err}
use mathlib.Core.Option

module _ {A : Type 0} where
  -- `session.get(Model, k)`
  unfoldable pub find_row : (A → String) → String → List A → Option A
  find_row key k [] = none
  find_row key k (x ∷ xs) = if key x == k then some x else find_row key k xs

  -- `row.attribute = …` for the row with that key.
  unfoldable pub update_row : (A → String) → String → (A → A) → List A → List A
  update_row key k f [] = []
  update_row key k f (x ∷ xs) = (if key x == k then f x else x) ∷ update_row key k f xs

  -- `result.scalar_one_or_none()`
  abbrev pub scalar_one_or_none : List A → Result (Option A)
  scalar_one_or_none [] = ok none
  scalar_one_or_none (x ∷ []) = ok (some x)
  scalar_one_or_none (x ∷ _ ∷ _) =
      err (builtin "MultipleResultsFound" "Multiple rows were found when one or none was required")

  -- An update that keeps the key shows at that key, and nowhere else.
  pub find-update_row :
      (key : A → String) (k : String) (f : A → A)
      → ((x : A) → key x ≡ k → key (f x) ≡ k)
      → (j : String) (xs : List A)
      → find_row key j (update_row key k f xs)
        ≡ (if k == j then Option.map f (find_row key j xs) else find_row key j xs)
  unfolding find_row update_row
  find-update_row key k f same j [] = ground arith
  find-update_row key k f same j (x ∷ xs) = ground (
    arith,
    same x,
    eq_iff (key x) k,
    eq_iff (key x) j,
    eq_iff k j,
    eq_iff (key (f x)) j,
    find-update_row key k f same j xs,
  )

  -- A new row at the end hides no older row.
  pub find-append :
      (key : A → String) (k : String) (xs : List A) (y : A) {x : A}
      → find_row key k xs ≡ some x
      → find_row key k (xs ++ y ∷ []) ≡ some x
  unfolding find_row
  find-append key k [] y h = ground arith
  find-append key k (z ∷ xs) y {x = x} h = ground (arith, find-append key k xs y {x = x})

  -- An update by the key of the last row changes that row alone, if no older row has the key.
  pub update_row-append_new :
      (key : A → String) (f : A → A) (xs : List A) (y : A)
      → find_row key (key y) xs ≡ none
      → update_row key (key y) f (xs ++ y ∷ []) ≡ xs ++ f y ∷ []
  unfolding find_row update_row
  update_row-append_new key f [] y h = ground (arith, eq_refl (key y))
  update_row-append_new key f (x ∷ xs) y h = ground (arith, update_row-append_new key f xs y)

  -- A new row is found by its key, if no older row has the key.
  pub find-append_new :
      (key : A → String) (xs : List A) (y : A)
      → find_row key (key y) xs ≡ none
      → find_row key (key y) (xs ++ y ∷ []) ≡ some y
  unfolding find_row
  find-append_new key [] y h = ground (arith, eq_refl (key y))
  find-append_new key (x ∷ xs) y h = ground (arith, find-append_new key xs y)
