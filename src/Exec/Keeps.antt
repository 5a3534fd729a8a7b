-- ===== src/Exec/Keeps.antt =====
-- Invariants of stateful code: a rule for each way to build it. An invariant is kept whether the code
-- returns or raises.
use seemsim_esim_gateway.Prelude.{Bool, true, false, if◌then◌else◌, ◌≡◌, refl, Bool-cases, inl, inr}
use seemsim_esim_gateway.Errors.{Exception}
use seemsim_esim_gateway.Exec.{
  Exec, Result, ok, err, pure, raise, lift, gets, attempt, try_except, ◌>>=◌,
}

pub record Keeps {S A : Type 0} (P : S → Type 0) (m : Exec S A) : Type 0 where
  pub at : (s : S) → P s → P (m s).1

module _ {S A : Type 0} {P : S → Type 0} where
  -- Code that leaves the state alone keeps what holds of it.
  pub Keeps-attempt : (body : Exec S A) → Keeps P body → Keeps P (attempt body)
  Keeps-attempt body kept = record { at = kept.at }

  pub Keeps-lift : (outcome : Result A) → Keeps P (lift outcome)
  Keeps-lift outcome = record { at = λ _ h. h }

  -- The two branches of a test, each under what the test says.
  pub Keeps-if :
      (test : Bool) (first second : Exec S A)
      → (test ≡ true → Keeps P first)
      → (test ≡ false → Keeps P second)
      → Keeps P (if test then first else second)
  Keeps-if test first second on_true on_false = elim (Bool-cases test) [
    | inl e ↦ rw e (on_true e)
    | inr e ↦ rw e (on_false e)
  ]

  pub Keeps-gets : (read : S → A) → Keeps P (gets read)
  Keeps-gets read = record { at = λ _ h. h }

  pub Keeps-raise : (exc : Exception) → Keeps P (raise {A = A} exc)
  Keeps-raise exc = Keeps-lift (err exc)

  pub Keeps-pure : (value : A) → Keeps P (pure value)
  Keeps-pure value = Keeps-lift (ok value)

  handled :
      (r : Result A) (handler : Exception → Exec S A) (s : S)
      → ((e : Exception) → r ≡ err e → Keeps P (handler e))
      → P s
      → P (try_except (lift r) handler s).1
  handled (ok a) handler s k h = h
  handled (err e) handler s k h = (k e refl).at s h

  pub Keeps-try :
      (m : Exec S A) (handler : Exception → Exec S A)
      → Keeps P m
      → ((e : Exception) → Keeps P (handler e))
      → Keeps P (try_except m handler)
  Keeps-try m handler km kh = record {
    at = λ s h. let (r, s') = m s in handled r handler s' (λ e _. kh e) (km.at s h);
  }

module _ {S A B : Type 0} {P : S → Type 0} where
  continued :
      (r : Result A) (f : A → Exec S B) (s : S)
      → ((a : A) → r ≡ ok a → Keeps P (f a))
      → P s
      → P ((lift r >>= f) s).1
  continued (ok a) f s k h = (k a refl).at s h
  continued (err e) f s k h = h

  -- The rest may use what the lifted result is.
  pub Keeps-bind-lift :
      (outcome : Result A) (rest : A → Exec S B)
      → ((a : A) → outcome ≡ ok a → Keeps P (rest a))
      → Keeps P (lift outcome >>= rest)
  Keeps-bind-lift outcome rest kept = record { at = λ s. continued outcome rest s kept }

  pub Keeps-bind :
      (first : Exec S A) (rest : A → Exec S B)
      → Keeps P first
      → ((a : A) → Keeps P (rest a))
      → Keeps P (first >>= rest)
  Keeps-bind first rest kept later = record {
    at = λ s h. continued (first s).0 rest (first s).1 (λ a _. later a) (kept.at s h);
  }

pub ruleset keeps_rules =
    (Keeps-bind, Keeps-if, Keeps-attempt, Keeps-lift, Keeps-gets, Keeps-raise, Keeps-pure)
