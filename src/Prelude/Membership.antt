-- ===== src/Prelude/Membership.antt =====
-- The members of a list of which some were chosen, as a query with `where` does.
use mathlib.Core.Bool.{Bool, true}
use mathlib.Core.List.{List, [], ◌∷◌, Memᴰ}
use mathlib.Core.List.Memᴰ
use mathlib.Core.Logic.{◌↔◌, inl, inr, ⊎_elim}
use mathlib.Core.Path.{◌≡◌, ap, ◌∙◌, subst}
use native.Mathlib.Omega.{arith}
use seemsim_esim_gateway.Prelude.Lists.{select_where}
use seemsim_esim_gateway.Prelude.Tests.{if◌then◌else◌, Bool-cases}

module _ {ℓ} {A : Type ℓ} (p : A → Bool) (x : A) where
  selected-Memᴰ : (xs : List A) → Memᴰ x (select_where p xs) → Memᴰ x xs × (p x ≡ true)
  selected-Memᴰ [] m = absurd (Memᴰ.not-nil m)
  selected-Memᴰ (y ∷ ys) m = elim (Bool-cases (p y)) [
    | inl e ↦
        ⊎_elim (λ same. (Memᴰ.head same, ap p same ∙ e))
          (λ later. let (stored, holds) = selected-Memᴰ ys later in (Memᴰ.tail stored, holds))
          (Memᴰ.cases_cons
            (subst (λ b. Memᴰ x (if b then y ∷ select_where p ys else select_where p ys)) e m))
    | inr e ↦
        let (stored, holds) =
          selected-Memᴰ ys
            (subst (λ b. Memᴰ x (if b then y ∷ select_where p ys else select_where p ys)) e m) in
        (Memᴰ.tail stored, holds)
  ]

  Memᴰ-selected : (xs : List A) → Memᴰ x xs → p x ≡ true → Memᴰ x (select_where p xs)
  Memᴰ-selected [] m h = m
  Memᴰ-selected (y ∷ ys) m h = elim (Bool-cases (p y)) [
    | inl e ↦
        rw e (⊎_elim Memᴰ.head (λ later. Memᴰ.tail (Memᴰ-selected ys later h)) (Memᴰ.cases_cons m))
    | inr e ↦ rw e (
        ⊎_elim (λ same. absurd (ground (arith, ap p same, e, h)))
          (λ later. Memᴰ-selected ys later h) (Memᴰ.cases_cons m))
  ]

  pub Memᴰ-select_where : (xs : List A) → Memᴰ x (select_where p xs) ↔ (Memᴰ x xs × (p x ≡ true))
  Memᴰ-select_where xs = (selected-Memᴰ xs, λ (m, h). Memᴰ-selected xs m h)
