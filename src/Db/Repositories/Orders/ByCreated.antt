-- ===== src/Db/Repositories/Orders/ByCreated.antt =====
-- `order_by(created_at)` and `limit` of app/repositories/order.py.
use mathlib.Core.List.{Memᴰ}
use mathlib.Core.List.Memᴰ
use mathlib.Core.Logic.{⊎_elim}
use mathlib.Core.Path.{subst}
use seemsim_esim_gateway.Prelude.{
  ℕ, zero, suc, ◌≤◌, List, [], ◌∷◌, take, length, All, leb, ◌≡◌, ◌⊎◌, refl, arith, ap, sym,
  Bool-cases, inl, inr,
}
use seemsim_esim_gateway.Models.{ProviderOrder}
use seemsim_esim_gateway.Db.Repositories.Orders.{insert_by_created, order_by_created}

-- Every order was created no later than the next one.
pub Ascending : List ProviderOrder → Type 0
Ascending [] = Unit {0}
Ascending (x ∷ xs) = All (λ y. x.created_at ≤ y.created_at) xs × Ascending xs

All-map :
    {P Q : ProviderOrder → Type 0} (f : (x : ProviderOrder) → P x → Q x) (xs : List ProviderOrder)
    → All P xs
    → All Q xs
All-map f [] h = tt
All-map f (x ∷ xs) (p, h) = (f x p, All-map f xs h)

module _ (P : ProviderOrder → Type 0) where
  pub All-take : (n : ℕ) (xs : List ProviderOrder) → All P xs → All P (take n xs)
  All-take zero xs h = tt
  All-take (suc n) [] h = tt
  All-take (suc n) (x ∷ xs) (p, h) = (p, All-take n xs h)

  All-insert :
      (o : ProviderOrder) (xs : List ProviderOrder)
      → P o
      → All P xs
      → All P (insert_by_created o xs)
  unfolding insert_by_created
  All-insert o [] p h = (p, tt)
  All-insert o (x ∷ xs) p (q, h) = elim (Bool-cases (leb o.created_at x.created_at)) [
    | inl e ↦ rw e (p, (q, h))
    | inr e ↦ rw e (q, All-insert o xs p h)
  ]

  pub All-order : (xs : List ProviderOrder) → All P xs → All P (order_by_created xs)
  unfolding order_by_created
  All-order [] h = tt
  All-order (x ∷ xs) (p, h) = All-insert x (order_by_created xs) p (All-order xs h)

Ascending-insert :
    (o : ProviderOrder) (xs : List ProviderOrder)
    → Ascending xs
    → Ascending (insert_by_created o xs)
unfolding insert_by_created Ascending
Ascending-insert o [] h = (tt, tt)
Ascending-insert o (x ∷ xs) (first, rest) = elim (Bool-cases (leb o.created_at x.created_at)) [
  | inl e ↦
      let before : o.created_at ≤ x.created_at = ground (arith, e) in
      rw e ((before, All-map (λ y q. omega (arith, before, q)) xs first), (first, rest))
  | inr e ↦
      let after : x.created_at ≤ o.created_at = ground (arith, e) in
      rw e
        (All-insert (λ y. x.created_at ≤ y.created_at) o xs after first, Ascending-insert o xs rest)
]

pub Ascending-order : (xs : List ProviderOrder) → Ascending (order_by_created xs)
unfolding order_by_created Ascending
Ascending-order [] = tt
Ascending-order (x ∷ xs) = Ascending-insert x (order_by_created xs) (Ascending-order xs)

pub Ascending-take : (n : ℕ) (xs : List ProviderOrder) → Ascending xs → Ascending (take n xs)
unfolding Ascending
Ascending-take zero xs h = tt
Ascending-take (suc n) [] h = tt
Ascending-take (suc n) (x ∷ xs) (first, rest) =
    (All-take (λ y. x.created_at ≤ y.created_at) n xs first, Ascending-take n xs rest)

pub All-members :
    (P : ProviderOrder → Type 0) (xs : List ProviderOrder)
    → ((o : ProviderOrder) → Memᴰ o xs → P o)
    → All P xs
All-members P [] f = tt
All-members P (x ∷ xs) f = (f x (Memᴰ.head refl), All-members P xs (λ o m. f o (Memᴰ.tail m)))

pub member_of :
    (P : ProviderOrder → Type 0) (o : ProviderOrder) (xs : List ProviderOrder)
    → All P xs
    → Memᴰ o xs
    → P o
member_of P o [] h m = absurd (Memᴰ.not-nil m)
member_of P o (x ∷ xs) (p, h) m =
    ⊎_elim (λ same. subst P (sym same) p) (member_of P o xs h) (Memᴰ.cases_cons m)

module _ (o : ProviderOrder) where
  Memᴰ-insert :
      (x : ProviderOrder) (xs : List ProviderOrder)
      → (o ≡ x) ⊎ Memᴰ o xs
      → Memᴰ o (insert_by_created x xs)
  unfolding insert_by_created
  Memᴰ-insert x [] m = ⊎_elim Memᴰ.head Memᴰ.tail m
  Memᴰ-insert x (y ∷ ys) m = elim (Bool-cases (leb x.created_at y.created_at)) [
    | inl e ↦ rw e (⊎_elim Memᴰ.head Memᴰ.tail m)
    | inr e ↦ rw e (
        ⊎_elim (λ new. Memᴰ.tail (Memᴰ-insert x ys (inl new)))
          (λ old.
            ⊎_elim Memᴰ.head (λ later. Memᴰ.tail (Memᴰ-insert x ys (inr later)))
              (Memᴰ.cases_cons old))
          m)
  ]

  pub Memᴰ-order : (xs : List ProviderOrder) → Memᴰ o xs → Memᴰ o (order_by_created xs)
  unfolding order_by_created
  Memᴰ-order [] m = m
  Memᴰ-order (x ∷ xs) m =
      Memᴰ-insert x (order_by_created xs)
        (⊎_elim inl (λ later. inr (Memᴰ-order xs later)) (Memᴰ.cases_cons m))

  -- An order that does not fit into the limit was created no earlier than those that do.
  pub taken-or_later :
      (n : ℕ) (xs : List ProviderOrder)
      → Ascending xs
      → Memᴰ o xs
      → Memᴰ o (take n xs)
        ⊎ ((length (take n xs) ≡ n) × All (λ x. x.created_at ≤ o.created_at) (take n xs))
  unfolding Ascending
  taken-or_later zero xs h m = inr (refl, tt)
  taken-or_later (suc n) [] h m = absurd (Memᴰ.not-nil m)
  taken-or_later (suc n) (x ∷ xs) (first, rest) m =
      ⊎_elim (λ same. inl (Memᴰ.head same))
        (λ later.
          ⊎_elim (λ taken. inl (Memᴰ.tail taken))
            (λ (full, earlier). inr (
              ap suc full,
              (member_of (λ y. x.created_at ≤ y.created_at) o xs first later, earlier),
            ))
            (taken-or_later n xs rest later))
        (Memᴰ.cases_cons m)
