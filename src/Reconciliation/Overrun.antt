-- ===== src/Reconciliation/Overrun.antt =====
-- The lifetime of the locks of app/tasks/reconciliation.py.
use seemsim_esim_gateway.Prelude.{
  ℕ, String, true, not, none, some, ◌≡◌, refl, ap, ◌∙◌, ltb, leb, arith, if◌then◌else◌, Bool-cases,
  inl, inr,
}
use seemsim_esim_gateway.Exec.{ok}
use seemsim_esim_gateway.Redis.{Redis}
use seemsim_esim_gateway.Reconciliation.Job.{Job, lock_key, lock_ttl, acquire_lock, release_lock}
use seemsim_esim_gateway.Reconciliation.Lock.{
  acquire_lock-held, acquire_lock-free, release_lock-frees,
}

-- Seconds pass in Redis.
abbrev pub waited : (redis : Redis String) → ℕ → Job redis.State → Job redis.State
waited redis dt j = record j { locks = redis.advance dt j.locks }

module _ (redis : Redis String) (name : String) (j : Job redis.State)
    (free : redis.get (lock_key name) j.locks ≡ none) (dt : ℕ) where
  -- What a run finds that starts `dt` seconds after another one took the lock.
  abbrev second : Job redis.State
  second = waited redis dt (acquire_lock redis name j).1

  second_key : redis.get (lock_key name) second.locks ≡ (if ltb dt lock_ttl then some "1" else none)
  second_key =
      ap (λ p. redis.get (lock_key name) (redis.advance dt p.1.locks))
        (acquire_lock-free redis name j free)
      ∙ redis.get-advance-set (lock_key name) "1" lock_ttl dt j.locks

  second_acquires : (acquire_lock redis name second).0 ≡ ok (not (ltb dt lock_ttl))
  second_acquires = elim (Bool-cases (ltb dt lock_ttl)) [
    | inl e ↦
        ap (λ p. p.0) (acquire_lock-held redis name "1" second (second_key ∙ rw e refl)) ∙ rw e refl
    | inr e ↦
        ap (λ p. p.0) (acquire_lock-free redis name second (second_key ∙ rw e refl)) ∙ rw e refl
  ]

  at_least : (n : ℕ) → not (ltb n 120) ≡ leb 120 n
  at_least n = elim (Bool-cases (ltb n 120)) [
    | inl e ↦ ground (arith, e)
    | inr e ↦ ground (arith, e)
  ]

  -- A second run that starts `dt` seconds after a first one took the free lock, while the first one has
  -- not released it, gets the lock exactly if `dt` is at least 120; and if the first one then releases
  -- it, a third run gets the lock, also where the second one has it and has not released it.
  pub acquire_lock-expires :
      ((acquire_lock redis name second).0 ≡ ok (leb 120 dt))
      × ((acquire_lock redis name (release_lock redis name (acquire_lock redis name second).1).1).0
          ≡ ok true)
  acquire_lock-expires = (
    second_acquires ∙ ap ok (at_least dt),
    ap (λ p. p.0)
        (acquire_lock-free redis name (release_lock redis name (acquire_lock redis name second).1).1
          (release_lock-frees redis name (acquire_lock redis name second).1)),
  )
