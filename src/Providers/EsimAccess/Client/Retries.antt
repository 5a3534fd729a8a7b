-- ===== src/Providers/EsimAccess/Client/Retries.antt =====
-- Which attempt answers a request.
use seemsim_esim_gateway.Prelude.{
  ℕ, zero, suc, ◌+◌, ◌≤◌, ◌<◌, String, true, false, ◌≡◌, refl, ◌⊎◌, inl, inr, arith, Bool-cases, ap,
  ◌∙◌, sym,
}
use seemsim_esim_gateway.Python.Json.{Object}
use seemsim_esim_gateway.Python.Runtime.{Runtime}
use seemsim_esim_gateway.Exec.{Result}
use seemsim_esim_gateway.Providers.EsimAccess.Auth.{EsimAccessAuth, Http}
use seemsim_esim_gateway.Providers.EsimAccess.Client.{is_retryable, retry, request_once, request}

-- The answer is that of attempt k + j: all attempts before it were to be retried, and it was not, or
-- it was the last that is allowed.
pub record AnsweredBy (attempt : ℕ → Result Object) (n k : ℕ) (answer : Result Object) (j : ℕ)
    : Type 0 where
  pub within : j ≤ n
  pub answers : answer ≡ attempt (k + j)
  pub earlier : (i : ℕ) → i < j → is_retryable (attempt (k + i)) ≡ true
  pub last : (is_retryable (attempt (k + j)) ≡ false) ⊎ (j ≡ n)

module _ (attempt : ℕ → Result Object) where
  at_zero : (k : ℕ) → attempt k ≡ attempt (k + 0)
  at_zero k = ap attempt (omega arith)

  at_suc : (k j : ℕ) → attempt (k + 1 + j) ≡ attempt (k + suc j)
  at_suc k j = ap attempt (omega arith)

  shifted :
      (k j : ℕ)
      → is_retryable (attempt k) ≡ true
      → ((i : ℕ) → i < j → is_retryable (attempt (k + 1 + i)) ≡ true)
      → (i : ℕ) → i < suc j
      → is_retryable (attempt (k + i)) ≡ true
  shifted k j first later zero h = ap is_retryable (sym (at_zero k)) ∙ first
  shifted k j first later (suc i) h = ap is_retryable (sym (at_suc k i)) ∙ later i (omega arith)

  last_of :
      (n k j : ℕ)
      → (is_retryable (attempt (k + 1 + j)) ≡ false) ⊎ (j ≡ n)
      → (is_retryable (attempt (k + suc j)) ≡ false) ⊎ (suc j ≡ suc n)
  last_of n k j (inl final) = inl (ap is_retryable (sym (at_suc k j)) ∙ final)
  last_of n k j (inr e) = inr (ap suc e)

  retry-AnsweredBy : (n k : ℕ) → (j : ℕ) × AnsweredBy attempt n k (retry attempt n k) j
  unfolding retry
  retry-AnsweredBy zero k = (
    0,
    record {
      within = omega arith;
      answers = at_zero k;
      earlier = λ i h. absurd (omega arith);
      last = inr refl;
    },
  )
  retry-AnsweredBy (suc n) k = elim (Bool-cases (is_retryable (attempt k))) [
    | inr final ↦ rw final (
      0,
      record {
        within = omega arith;
        answers = at_zero k;
        earlier = λ i h. absurd (omega arith);
        last = inl (ap is_retryable (sym (at_zero k)) ∙ final);
      },
    )
    | inl again ↦
        let (j, a) = retry-AnsweredBy n (k + 1) in
        rw again (
          suc j,
          record {
            within = omega (arith, a.within);
            answers = a.answers ∙ at_suc k j;
            earlier = shifted k j again a.earlier;
            last = last_of n k j a.last;
          },
        )
  ]

-- A request is answered by one of at most three attempts, numbered from 1: every attempt before the
-- answering one ended with a processing error or an unavailable provider, and the answering one did
-- not, or it was the third.
pub request-AnsweredBy :
    (rt : Runtime) (http : Http) (auth : EsimAccessAuth) (exchange : ℕ) (path : String)
    (payload : Object)
    → (j : ℕ) × AnsweredBy
        (request_once rt http auth exchange path payload)
        2
        1
        (request rt http auth exchange path payload)
        j
unfolding request
request-AnsweredBy rt http auth exchange path payload =
    retry-AnsweredBy (request_once rt http auth exchange path payload) 2 1
