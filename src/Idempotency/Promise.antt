-- ===== src/Idempotency/Promise.antt =====
-- The states of interleaved requests that implement a cell, and what the commands of
-- app/core/idempotency.py do to them.
use seemsim_esim_gateway.Exec.{Result, ok, err}
use mathlib.Core.Path.{subst}
use seemsim_esim_gateway.Prelude.{
  ℕ, String, Option, none, some, ◌≡◌, ◌≢◌, refl, arith, sym, Bool-cases, inl, inr, ◌⊎◌,
}
use seemsim_esim_gateway.Errors.{
  Exception, new_error, idempotency_processing_error, idempotency_conflict_error,
}
use seemsim_esim_gateway.Redis.{Redis}
use seemsim_esim_gateway.Idempotency.{
  IdempotencyRecord, completed, redis_key, locked, check_found, lock, conflicts,
}
use seemsim_esim_gateway.Idempotency.Interleaved.{
  Requests, Phase, arrived, missed, working, answered, replayed, refused, after_check, update,
  everywhere, System,
}
use seemsim_esim_gateway.Idempotency.Cell.{
  Cell, vacant, claimed, settled, Event, Move, tell, turn_away,
}
use seemsim_esim_gateway.Idempotency.Trace.{checked}

module _ (redis : Redis IdempotencyRecord) (requests : Requests) where
  -- What Redis holds for a cell.
  abbrev pub content : Cell → Option IdempotencyRecord
  content vacant = none
  content (claimed i) = some (locked (requests.fingerprint i))
  content (settled i body) = some (record {
    status = completed;
    status_code = some requests.code;
    response_body = some body;
    request_fingerprint = some (requests.fingerprint i);
  })

  -- The phases agree with the cell: who works has claimed it, and a response is that of the cell.
  abbrev pub Agrees : Cell → ℕ → Phase → Type 0
  Agrees c i arrived = Unit
  Agrees c i missed = Unit
  Agrees c i working = c ≡ claimed i
  Agrees c i (answered body) = c ≡ settled i body
  Agrees c i (replayed found) =
      (j : ℕ) × (body : String) × (c ≡ settled j body) × (some found ≡ content c)
  Agrees c i (refused exc) = Unit

  pub record Implements (s : System redis.State) (c : Cell) : Type 0 where
    pub stored : redis.get (redis_key requests.key) s.keys ≡ content c
    pub agrees : (i : ℕ) → Agrees c i (s.phase i)
    pub holder : (i : ℕ) → c ≡ claimed i → s.phase i ≡ working

  -- The next cell, with the move to it that shows the event.
  pub record Next (c : Cell) (e : Event) (t : System redis.State) : Type 0 where
    pub cell : Cell
    pub allowed : Move e c cell
    pub implements : Implements t cell

  -- A phase that changes nothing for the others.
  pub quiet :
      (s : System redis.State) (c : Cell) (i : ℕ) (p : Phase)
      → Implements s c
      → s.phase i ≢ working
      → Agrees c i p
      → Implements (record s { phase = update s.phase i p }) c
  quiet s c i p v idle a = record {
    stored = v.stored;
    agrees = everywhere (Agrees c) s.phase i p a (λ j _. v.agrees j);
    holder =
        everywhere (λ j q. c ≡ claimed j → q ≡ working) s.phase i p
          (λ e. absurd (idle (v.holder i e))) (λ j _. v.holder j);
  }

  -- The key is given to request `i`, or is settled or freed by it.
  pub replaced :
      (s : System redis.State) (c d : Cell) (i : ℕ) (p : Phase) (k : redis.State)
      → ((j : ℕ) → i ≢ j → Agrees c j (s.phase j) → Agrees d j (s.phase j))
      → ((j : ℕ) → i ≢ j → d ≢ claimed j)
      → redis.get (redis_key requests.key) k ≡ content d
      → Agrees d i p
      → (d ≡ claimed i → p ≡ working)
      → Implements s c
      → Implements (record { keys = k; phase = update s.phase i p }) d
  replaced s c d i p k agree others stored a h v = record {
    stored = stored;
    agrees = everywhere (Agrees d) s.phase i p a (λ j ne. agree j ne (v.agrees j));
    holder =
        everywhere (λ j q. d ≡ claimed j → q ≡ working) s.phase i p h
          (λ j ne e. absurd (others j ne e));
  }

  -- From an empty cell, every phase agrees with every cell.
  pub from_vacant : (d : Cell) (j : ℕ) (p : Phase) → Agrees vacant j p → Agrees d j p
  from_vacant d j arrived a = tt
  from_vacant d j missed a = tt
  from_vacant d j working a = absurd (ground arith)
  from_vacant d j (answered body) a = absurd (ground arith)
  from_vacant d j (replayed found) (k, b, e, q) = absurd (ground arith)
  from_vacant d j (refused exc) a = tt

  -- A cell that another request has claimed.
  pub from_claimed :
      (i : ℕ) (d : Cell) (j : ℕ) (p : Phase) → i ≢ j → Agrees (claimed i) j p → Agrees d j p
  from_claimed i d j arrived ne a = tt
  from_claimed i d j missed ne a = tt
  from_claimed i d j working ne a = absurd (ground (arith, ne))
  from_claimed i d j (answered body) ne a = absurd (ground arith)
  from_claimed i d j (replayed found) ne (k, b, e, q) = absurd (ground arith)
  from_claimed i d j (refused exc) ne a = tt

  -- Who works has claimed the cell.
  pub mine :
      (s : System redis.State) (c : Cell) (i : ℕ)
      → Implements s c
      → s.phase i ≡ working
      → c ≡ claimed i
  mine s c i v p = subst (Agrees c i) p (v.agrees i)

  abbrev conflict : Exception
  conflict =
      new_error idempotency_conflict_error "Idempotency key already used with a different request"

  -- What `check_found` says of a request in progress, and of a completed one.
  refuses :
      (f f' : String) (k : redis.State)
      → (exc : Exception) × (check_found redis (locked f) f' k ≡ (err exc, k))
  unfolding check_found
  refuses f f' k = elim (Bool-cases (conflicts (some f) f')) [
    | inl e ↦ (conflict, rw e refl)
    | inr e ↦ (new_error idempotency_processing_error "", rw e refl)
  ]

  replays :
      (found : IdempotencyRecord) (f' : String) (k : redis.State)
      → found.status ≡ completed
      → (check_found redis found f' k ≡ (err conflict, k))
        ⊎ (check_found redis found f' k ≡ (ok (some found), k))
  unfolding check_found
  replays found f' k h = elim (Bool-cases (conflicts found.request_fingerprint f')) [
    | inl e ↦ inl (rw e refl)
    | inr e ↦ inr (ground arith)
  ]

  pub is_replay :
      (found : IdempotencyRecord)
      → found.status ≡ completed
      → after_check (ok (some found)) ≡ replayed found
  unfolding after_check
  is_replay found h = ground arith

  -- A look at the key changes nothing, and its outcome agrees with the cell, which allows it.
  abbrev pub Fair :
      Cell → ℕ → redis.State → Result (Option IdempotencyRecord) × redis.State → Type 0
  Fair c i k p = (p.1 ≡ k) × Agrees c i (after_check p.0) × Move (checked i (after_check p.0)) c c

  pub taken : (c : Cell) (found : IdempotencyRecord) → content c ≡ some found → c ≢ vacant
  taken vacant found h = absurd (ground arith)
  taken (claimed j) found h = λ e. ground arith
  taken (settled j body) found h = λ e. ground arith

  told_body :
      (j : ℕ) (body : String) (found : IdempotencyRecord)
      → some found ≡ content (settled j body)
      → found.response_body ≡ some body
  told_body j body found e = ground arith

  pub check_found-Fair :
      (c : Cell) (i : ℕ) (found : IdempotencyRecord) (k : redis.State)
      → some found ≡ content c
      → Fair c i k (check_found redis found (requests.fingerprint i) k)
  unfolding after_check
  check_found-Fair vacant i found k e = absurd (ground arith)
  check_found-Fair (claimed j) i found k e =
      let (exc, q) = refuses (requests.fingerprint j) (requests.fingerprint i) k in
      let q' : check_found redis found (requests.fingerprint i) k ≡ (err exc, k) = ground arith in
      subst (Fair (claimed j) i k) (sym q')
        (refl, tt, turn_away i (claimed j) (taken (claimed j) found (sym e)))
  check_found-Fair (settled j body) i found k e =
      elim (replays found (requests.fingerprint i) k (ground arith)) [
        | inl q ↦
            subst (Fair (settled j body) i k) (sym q)
              (refl, tt, turn_away i (settled j body) (taken (settled j body) found (sym e)))
        | inr q ↦ subst (Fair (settled j body) i k) (sym q) (
          refl,
          subst (Agrees (settled j body) i) (sym (is_replay found (ground arith)))
              (j, body, refl, e),
          subst (λ p. Move (checked i p) (settled j body) (settled j body))
              (sym (is_replay found (ground arith)))
              (tell j i body found.response_body (told_body j body found e)),
        )
      ]

  pub lock-free :
      (f : String) (k : redis.State)
      → redis.get (redis_key requests.key) k ≡ none
      → lock redis requests.ttl requests.key f k
        ≡ (ok none, redis.set (redis_key requests.key) (locked f) requests.ttl k)
  unfolding lock
  lock-free f k h = rw (redis.set_nx-free (redis_key requests.key) (locked f) requests.ttl k h) refl

  pub lock-held :
      (f : String) (found : IdempotencyRecord) (k : redis.State)
      → redis.get (redis_key requests.key) k ≡ some found
      → lock redis requests.ttl requests.key f k
        ≡ (err (new_error idempotency_processing_error ""), k)
  unfolding lock
  lock-held f found k h =
      rw (redis.set_nx-held (redis_key requests.key) found (locked f) requests.ttl k h) refl
