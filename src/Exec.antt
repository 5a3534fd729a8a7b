-- ===== src/Exec.antt =====
-- Python code that mutates a state and may raise: the state comes back beside an exception too,
-- since what was written before a `raise` stays written.
pub mod Keeps
pub mod Yields
use seemsim_esim_gateway.Prelude.{Bool, true, false, if◌then◌else◌, ◌≡◌, refl, ap, ◌⊎◌, inl, inr}
use seemsim_esim_gateway.Errors.{Exception, catches_provider_error}

pub data Result {ℓ} (A : Type ℓ) : Type ℓ where
  ok : A → Result A
  err : Exception → Result A

-- Whether there is no exception.
abbrev pub returns {ℓ} : {A : Type ℓ} → Result A → Bool
returns (ok a) = true
returns (err e) = false

-- To split on an outcome and keep the equation.
pub Result-cases {ℓ} :
    {A : Type ℓ} (r : Result A) → ((a : A) × (r ≡ ok a)) ⊎ ((e : Exception) × (r ≡ err e))
Result-cases (ok a) = inl (a, refl)
Result-cases (err e) = inr (e, refl)

abbrev pub Exec : Type 0 → Type 0 → Type 0
Exec S A = S → Result A × S

module _ {S A : Type 0} where
  abbrev pub pure : A → Exec S A
  pure a s = (ok a, s)

  abbrev pub raise : Exception → Exec S A
  raise e s = (err e, s)

  abbrev pub lift : Result A → Exec S A
  lift r s = (r, s)

  -- The outcome as a value, for a `try` whose handler goes on in its own way.
  abbrev pub attempt : Exec S A → Exec S (Result A)
  attempt m s = let (r, s') = m s in (ok r, s')

  abbrev pub gets : (S → A) → Exec S A
  gets f s = (ok (f s), s)

  -- `try: m except Exception as exc: handler(exc)`
  abbrev pub try_except : Exec S A → (Exception → Exec S A) → Exec S A
  try_except m handler s = let (r, s') = m s in elim r [ ok a ↦ (ok a, s') | err e ↦ handler e s' ]

  -- `try: m except ProviderError as exc: handler(exc)`
  abbrev pub try_except_provider : Exec S A → (Exception → Exec S A) → Exec S A
  try_except_provider m handler =
      try_except m (λ e. if catches_provider_error e then handler e else raise e)

abbrev pub modify : {S : Type 0} → (S → S) → Exec S (Unit {0})
modify f s = (ok tt, f s)

module _ {S A B : Type 0} where
  infixl 5 ◌>>=◌ ◌>>◌
  abbrev pub ◌>>=◌ : Exec S A → (A → Exec S B) → Exec S B
  ◌>>=◌ m f s = let (r, s') = m s in elim r [ ok a ↦ f a s' | err e ↦ (err e, s') ]

  abbrev pub ◌>>◌ : Exec S A → Exec S B → Exec S B
  m >> k = m >>= λ _. k

  -- After a first part that returned, the rest runs in the state that it left.
  pub bind_ok :
      (m : Exec S A) (f : A → Exec S B) {s s' : S} {a : A} → m s ≡ (ok a, s') → (m >>= f) s ≡ f a s'
  bind_ok m f h =
      let run : Result A × S → Result B × S =
        λ p. elim p.0 [ ok a ↦ f a p.1 | err e ↦ (err e, p.1) ] in
      ap run h
