-- ===== src/Db/Repositories/Products/ByName.antt =====
-- `order_by(name)` of app/repositories/product.py loses and adds no row.
use mathlib.Core.List.{Memᴰ}
use mathlib.Core.List.Memᴰ
use mathlib.Core.Logic.{◌↔◌, ⊎_elim}
use mathlib.Core.Path.{subst}
use seemsim_esim_gateway.Prelude.{
  String, Bool, List, [], ◌∷◌, ◌≡◌, ◌⊎◌, inl, inr, Bool-cases, if◌then◌else◌,
}
use seemsim_esim_gateway.Models.Product.{ProviderProduct}
use seemsim_esim_gateway.Db.Repositories.Products.{insert_by_name, order_by_name}

module _ (name_leb : String → String → Bool) (x : ProviderProduct) where
  inserted-Memᴰ :
      (p : ProviderProduct) (ps : List ProviderProduct)
      → Memᴰ x (insert_by_name name_leb p ps)
      → (x ≡ p) ⊎ Memᴰ x ps
  unfolding insert_by_name
  inserted-Memᴰ p [] m = Memᴰ.cases_cons m
  inserted-Memᴰ p (y ∷ ys) m = elim (Bool-cases (name_leb p.name y.name)) [
    | inl e ↦
        Memᴰ.cases_cons
          (subst (λ b. Memᴰ x (if b then p ∷ y ∷ ys else y ∷ insert_by_name name_leb p ys)) e m)
    | inr e ↦
        ⊎_elim (λ same. inr (Memᴰ.head same))
          (λ later. ⊎_elim inl (λ old. inr (Memᴰ.tail old)) (inserted-Memᴰ p ys later))
          (Memᴰ.cases_cons
            (subst (λ b. Memᴰ x (if b then p ∷ y ∷ ys else y ∷ insert_by_name name_leb p ys)) e m))
  ]

  Memᴰ-inserted :
      (p : ProviderProduct) (ps : List ProviderProduct)
      → (x ≡ p) ⊎ Memᴰ x ps
      → Memᴰ x (insert_by_name name_leb p ps)
  unfolding insert_by_name
  Memᴰ-inserted p [] m = ⊎_elim Memᴰ.head Memᴰ.tail m
  Memᴰ-inserted p (y ∷ ys) m = elim (Bool-cases (name_leb p.name y.name)) [
    | inl e ↦ rw e (⊎_elim Memᴰ.head Memᴰ.tail m)
    | inr e ↦ rw e (
        ⊎_elim (λ new. Memᴰ.tail (Memᴰ-inserted p ys (inl new)))
          (λ old.
            ⊎_elim Memᴰ.head (λ later. Memᴰ.tail (Memᴰ-inserted p ys (inr later)))
              (Memᴰ.cases_cons old))
          m)
  ]

  pub Memᴰ-order_by_name :
      (ps : List ProviderProduct) → Memᴰ x (order_by_name name_leb ps) ↔ Memᴰ x ps
  unfolding order_by_name
  Memᴰ-order_by_name [] = (λ m. m, λ m. m)
  Memᴰ-order_by_name (p ∷ ps) =
      let (to, from) = Memᴰ-order_by_name ps in
      (
        λ m.
            ⊎_elim Memᴰ.head (λ later. Memᴰ.tail (to later))
              (inserted-Memᴰ p (order_by_name name_leb ps) m),
        λ m.
            Memᴰ-inserted p (order_by_name name_leb ps)
              (⊎_elim inl (λ later. inr (from later)) (Memᴰ.cases_cons m)),
      )
