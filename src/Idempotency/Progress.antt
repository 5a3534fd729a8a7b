-- ===== src/Idempotency/Progress.antt =====
-- How a request with an idempotency key is decided, without a step of another one.
use seemsim_esim_gateway.Prelude.{
  String, Bool, not, ◌&&◌, ◌==◌, ℕ, ◌≤◌, ◌<◌, suc, some, ◌≡◌, ◌≢◌, refl, arith, ap, ◌∙◌, inl, inr,
  Bool-cases, if◌then◌else◌,
}
use mathlib.Core.Path.{subst}
use seemsim_esim_gateway.Errors.{
  Exception, new_error, idempotency_processing_error, idempotency_conflict_error,
}
use seemsim_esim_gateway.Redis.{Redis}
use seemsim_esim_gateway.Idempotency.{IdempotencyRecord, completed, redis_key, check_found, lock}
use seemsim_esim_gateway.Idempotency.Interleaved.{
  Requests, Phase, arrived, missed, working, answered, replayed, refused, after_check, update,
  System, Step, miss, look, claim, Reach,
}
use seemsim_esim_gateway.Idempotency.Cell.{Cell, vacant, claimed, settled}
use seemsim_esim_gateway.Idempotency.Promise.{content, Implements, lock-free, lock-held}
use seemsim_esim_gateway.Idempotency.Refinement.{Reach-Implements}

update-same : (phase : ℕ → Phase) (i : ℕ) (p : Phase) → update phase i p i ≡ p
unfolding update
update-same phase i p = ground arith

update-other :
    (phase : ℕ → Phase) (i : ℕ) (p : Phase) (j : ℕ) → i ≢ j → update phase i p j ≡ phase j
unfolding update
update-other phase i p j ne = ground arith

abbrev in_progress : Exception
in_progress = new_error idempotency_processing_error ""

abbrev conflict : Exception
conflict =
    new_error idempotency_conflict_error "Idempotency key already used with a different request"

-- Another fingerprint, which is not empty.
abbrev pub differ : String → String → Bool
differ f f' = not (f == "") && not (f == f')

some_injective : {a b : IdempotencyRecord} → some a ≡ some b → b ≡ a
some_injective h = ground arith

module _ (redis : Redis IdempotencyRecord) (requests : Requests) where
  -- What a request becomes that found the cell so: it works if the cell is empty; it is refused for
  -- another fingerprint, and while the other request works; otherwise it is told the response. A request
  -- that missed the key before works or is refused.
  abbrev pub fate : ℕ → Phase → Cell → Phase
  fate i arrived vacant = working
  fate i arrived (claimed j) =
      refused
        (if differ (requests.fingerprint j) (requests.fingerprint i) then conflict else in_progress)
  fate i arrived (settled j body) =
      if differ (requests.fingerprint j) (requests.fingerprint i)
      then refused conflict
      else replayed (record {
        status = completed;
        status_code = some requests.code;
        response_body = some body;
        request_fingerprint = some (requests.fingerprint j);
      })
  fate i missed vacant = working
  fate i missed (claimed j) = refused in_progress
  fate i missed (settled j body) = refused in_progress
  fate i working c = working
  fate i (answered body) c = answered body
  fate i (replayed found) c = replayed found
  fate i (refused exc) c = refused exc

  -- So many steps.
  pub data Steps : ℕ → System redis.State → System redis.State → Type 0 where
    done : (s : System redis.State) → Steps 0 s s
    step :
        {n : ℕ} {s t u : System redis.State}
        → Step redis requests s t
        → Steps n t u
        → Steps (suc n) s u

  -- The request comes into the phase by at most so many steps, in which no other request moves.
  pub record Decided (n i : ℕ) (s : System redis.State) (p : Phase) : Type 0 where
    pub last : System redis.State
    pub count : ℕ
    pub bounded : count ≤ n
    pub steps : Steps count s last
    pub alone : (j : ℕ) → i ≢ j → last.phase j ≡ s.phase j
    pub decided : last.phase i ≡ p

  widen :
      {m n i : ℕ} {s : System redis.State} {p : Phase} → m ≤ n → Decided m i s p → Decided n i s p
  widen h d = record {
    last = d.last;
    count = d.count;
    bounded = omega (arith, d.bounded);
    steps = d.steps;
    alone = d.alone;
    decided = d.decided;
  }

  in_phase : {n i : ℕ} {p : Phase} (s : System redis.State) → s.phase i ≡ p → Decided n i s p
  in_phase s h = record {
    last = s;
    count = 0;
    bounded = omega arith;
    steps = done s;
    alone = λ _ _. refl;
    decided = h;
  }

  one_more :
      {n : ℕ} {p : Phase} (i : ℕ) (s : System redis.State) (k : redis.State) (q : Phase)
      → Step redis requests s (record { keys = k; phase = update s.phase i q })
      → Decided n i (record { keys = k; phase = update s.phase i q }) p
      → Decided (suc n) i s p
  one_more i s k q first d = record {
    last = d.last;
    count = suc d.count;
    bounded = omega (arith, d.bounded);
    steps = step first d.steps;
    alone = λ j ne. d.alone j ne ∙ update-other s.phase i q j ne;
    decided = d.decided;
  }

  locked-fate :
      (i : ℕ) (c : Cell) (k : redis.State)
      → redis.get (redis_key requests.key) k ≡ content redis requests c
      → after_check (lock redis requests.ttl requests.key (requests.fingerprint i) k).0
        ≡ fate i missed c
  unfolding after_check
  locked-fate i vacant k h =
      ap (λ q. after_check q.0) (lock-free redis requests (requests.fingerprint i) k h)
  locked-fate i (claimed j) k h =
      ap (λ q. after_check q.0) (lock-held redis requests (requests.fingerprint i) _ k h)
  locked-fate i (settled j body) k h =
      ap (λ q. after_check q.0) (lock-held redis requests (requests.fingerprint i) _ k h)

  found-fate :
      (i : ℕ) (c : Cell) (found : IdempotencyRecord) (k : redis.State)
      → some found ≡ content redis requests c
      → after_check (check_found redis found (requests.fingerprint i) k).0 ≡ fate i arrived c
  unfolding after_check check_found
  found-fate i vacant found k h = absurd (ground arith)
  found-fate i (claimed j) found k h =
      subst
        (λ f.
          after_check (check_found redis f (requests.fingerprint i) k).0
          ≡ fate i arrived (claimed j))
        (some_injective h)
        (elim (Bool-cases (differ (requests.fingerprint j) (requests.fingerprint i))) [
          | inl e ↦ rw e refl
          | inr e ↦ rw e refl
        ])
  found-fate i (settled j body) found k h =
      subst
        (λ f.
          after_check (check_found redis f (requests.fingerprint i) k).0
          ≡ fate i arrived (settled j body))
        (some_injective h)
        (elim (Bool-cases (differ (requests.fingerprint j) (requests.fingerprint i))) [
          | inl e ↦ rw e refl
          | inr e ↦ rw e refl
        ])

  from_missed :
      (i : ℕ) (s : System redis.State) (c : Cell)
      → redis.get (redis_key requests.key) s.keys ≡ content redis requests c
      → s.phase i ≡ missed
      → Decided 1 i s (fate i missed c)
  from_missed i s c stored h =
      let (r, k) = lock redis requests.ttl requests.key (requests.fingerprint i) s.keys in
      one_more i s k (after_check r) (claim i r k h refl)
        (in_phase _ (update-same s.phase i (after_check r) ∙ locked-fate i c s.keys stored))

  from_found :
      (i : ℕ) (s : System redis.State) (c : Cell) (found : IdempotencyRecord)
      → redis.get (redis_key requests.key) s.keys ≡ some found
      → some found ≡ content redis requests c
      → s.phase i ≡ arrived
      → Decided 2 i s (fate i arrived c)
  from_found i s c found at e h =
      let (r, k) = check_found redis found (requests.fingerprint i) s.keys in
      one_more i s k (after_check r) (look i found r k h at refl)
        (in_phase _ (update-same s.phase i (after_check r) ∙ found-fate i c found s.keys e))

  from_arrived :
      (i : ℕ) (s : System redis.State) (c : Cell)
      → redis.get (redis_key requests.key) s.keys ≡ content redis requests c
      → s.phase i ≡ arrived
      → Decided 2 i s (fate i arrived c)
  from_arrived i s vacant stored h =
      one_more i s s.keys missed (miss i h stored)
        (from_missed i _ vacant stored (update-same s.phase i missed))
  from_arrived i s (claimed j) stored h = from_found i s (claimed j) _ stored refl h
  from_arrived i s (settled j body) stored h = from_found i s (settled j body) _ stored refl h

  from_phase :
      (i : ℕ) (s : System redis.State) (c : Cell) (p : Phase)
      → redis.get (redis_key requests.key) s.keys ≡ content redis requests c
      → s.phase i ≡ p
      → Decided 2 i s (fate i p c)
  from_phase i s c arrived stored h = from_arrived i s c stored h
  from_phase i s c missed stored h = widen (omega arith) (from_missed i s c stored h)
  from_phase i s c working stored h = in_phase s h
  from_phase i s c (answered body) stored h = in_phase s h
  from_phase i s c (replayed found) stored h = in_phase s h
  from_phase i s c (refused exc) stored h = in_phase s h

  -- In every state that interleaved requests with one key reach while it does not expire, a request is
  -- decided by at most two commands of its own, without a step of another one, as the cell says: if the
  -- cell is empty it gets to its work; if another request has it, it is refused, for a conflict if the
  -- fingerprints differ and else as one in progress; if it is settled, it is told the response, or
  -- refused for a conflict; and where it missed the key before, it is refused as one in progress if the
  -- cell was taken since.
  pub request-Decided :
      (lives : 0 < requests.ttl) {s : System redis.State}
      → Reach redis requests s
      → (i : ℕ) → (c : Cell) × Implements redis requests s c × Decided 2 i s (fate i (s.phase i) c)
  request-Decided lives {s} reached i =
      let (c, allowed, implements) = Reach-Implements redis requests lives reached in
      (c, implements, from_phase i s c (s.phase i) implements.stored refl)
