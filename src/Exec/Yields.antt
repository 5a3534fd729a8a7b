-- ===== src/Exec/Yields.antt =====
-- What holds of the state before, the result and the state after, where the code returns.
use seemsim_esim_gateway.Prelude.{Bool, true, false, if◌then◌else◌, ◌≡◌, refl}
use seemsim_esim_gateway.Exec.{Exec, Result, ok, err, lift, ◌>>=◌}

pub record Yields {S A : Type 0} (Q : S → A → S → Type 0) (m : Exec S A) : Type 0 where
  pub at : (s : S) (a : A) → (m s).0 ≡ ok a → Q s a (m s).1

module _ {S A : Type 0} {Q : S → A → S → Type 0} where
  pub Yields-if :
      (b : Bool) (m n : Exec S A) → Yields Q m → Yields Q n → Yields Q (if b then m else n)
  Yields-if true m n km kn = km
  Yields-if false m n km kn = kn

module _ {S A B : Type 0} {Q : S → B → S → Type 0} where
  pub Yields-lift :
      (r : Result A) (f : A → Exec S B)
      → ((a : A) → r ≡ ok a → Yields Q (f a))
      → Yields Q (lift r >>= f)
  Yields-lift (ok a) f k = k a refl
  Yields-lift (err e) f k = record { at = λ s b h. absurd (cc) }
