-- ===== src/Idempotency/Refinement.antt =====
-- The interleavings of requests with one key, step by step against the cell that the key
-- promises.
use seemsim_esim_gateway.Exec.{Result}
use mathlib.Core.Path.{subst}
use seemsim_esim_gateway.Prelude.{ℕ, ◌<◌, Option, some, ◌≡◌, ◌≢◌, refl, arith, eq_refl, sym, ◌∙◌}
use seemsim_esim_gateway.Redis.{Redis}
use seemsim_esim_gateway.Idempotency.{IdempotencyRecord, redis_key, locked, lock, complete, release}
use seemsim_esim_gateway.Idempotency.Interleaved.{
  Requests, Phase, missed, working, answered, refused, after_check, update, System, Step, miss,
  look, claim, succeed, fail, Reach, start, later,
}
use seemsim_esim_gateway.Idempotency.Cell.{
  Cell, vacant, claimed, settled, Move, take, give_up, settle, stay, turn_away, Allowed, empty,
  moved, Event, returned, gave_up,
}
use seemsim_esim_gateway.Idempotency.Trace.{checked, event, trace}
use seemsim_esim_gateway.Idempotency.Promise.{
  content, Agrees, Implements, Next, mine, taken, check_found-Fair, lock-free, lock-held, quiet,
  replaced, from_vacant, from_claimed, Fair,
}

module _ (redis : Redis IdempotencyRecord) (requests : Requests) (lives : 0 < requests.ttl) where
  -- The next cell after a look at a key, or an attempt to lock it, that left the key alone.
  left_alone :
      (s : System redis.State) (c : Cell) (i : ℕ) (r : Result (Option IdempotencyRecord))
      (k : redis.State)
      → Implements redis requests s c
      → s.phase i ≢ working
      → Fair redis requests c i s.keys (r, k)
      → Next redis requests c
          (checked i (after_check r))
          (record { keys = k; phase = update s.phase i (after_check r) })
  left_alone s c i r k v idle (e, a, move) = record {
    cell = c;
    allowed = move;
    implements =
        subst
          (λ x.
            Implements redis requests
              (record { keys = x; phase = update s.phase i (after_check r) }) c)
          (sym e) (quiet redis requests s c i (after_check r) v idle a);
  }

  refused_lock :
      (s : System redis.State) (c : Cell) (i : ℕ) (found : IdempotencyRecord)
      (r : Result (Option IdempotencyRecord)) (k : redis.State)
      → Implements redis requests s c
      → s.phase i ≡ missed
      → lock redis requests.ttl requests.key (requests.fingerprint i) s.keys ≡ (r, k)
      → content redis requests c ≡ some found
      → Next redis requests c
          (checked i (after_check r))
          (record { keys = k; phase = update s.phase i (after_check r) })
  unfolding after_check
  refused_lock s c i found r k v p h e =
      left_alone s c i r k v (λ q. absurd (ground arith))
        (subst (Fair redis requests c i s.keys)
          (sym (lock-held redis requests (requests.fingerprint i) found s.keys (v.stored ∙ e)) ∙ h)
          (refl, tt, turn_away i c (taken redis requests c found e)))

  claimed_by :
      (s : System redis.State) (c : Cell) (i : ℕ) (r : Result (Option IdempotencyRecord))
      (k : redis.State)
      → Implements redis requests s c
      → s.phase i ≡ missed
      → lock redis requests.ttl requests.key (requests.fingerprint i) s.keys ≡ (r, k)
      → Next redis requests c
          (checked i (after_check r))
          (record { keys = k; phase = update s.phase i (after_check r) })
  unfolding after_check
  claimed_by s vacant i r k v p h =
      subst
        (λ q.
          Next redis requests vacant (checked i (after_check q.0))
            (record { keys = q.1; phase = update s.phase i (after_check q.0) }))
        (sym (lock-free redis requests (requests.fingerprint i) s.keys v.stored) ∙ h)
        (record {
          cell = claimed i;
          allowed = take i;
          implements =
              replaced redis requests s vacant (claimed i) i working _
                (λ j _. from_vacant redis requests (claimed i) j (s.phase j))
                (λ j ne q. absurd (ne (ground arith)))
                (redis.get-set (redis_key requests.key) (locked (requests.fingerprint i))
                  requests.ttl s.keys lives)
                refl (λ _. refl) v;
        })
  claimed_by s (claimed j) i r k v p h = refused_lock s (claimed j) i _ r k v p h refl
  claimed_by s (settled j body) i r k v p h = refused_lock s (settled j body) i _ r k v p h refl

  -- The next cell when the work of a request ends.
  ended :
      (s : System redis.State) (c d : Cell) (event : Event) (i : ℕ) (p : Phase) (k : redis.State)
      → Implements redis requests s c
      → s.phase i ≡ working
      → Move event (claimed i) d
      → ((j : ℕ) → d ≢ claimed j)
      → redis.get (redis_key requests.key) k ≡ content redis requests d
      → Agrees redis requests d i p
      → Next redis requests c event (record { keys = k; phase = update s.phase i p })
  ended s c d event i p k v w move free stored a = record {
    cell = d;
    allowed = subst (λ x. Move event x d) (sym (mine redis requests s c i v w)) move;
    implements =
        replaced redis requests s c d i p k
          (λ j ne b.
            from_claimed redis requests i d j (s.phase j) ne (
              subst (λ x. Agrees redis requests x j (s.phase j)) (mine redis requests s c i v w) b))
          (λ j _. free j) stored a (λ e. absurd (free i e)) v;
  }

  Step-Next :
      {s t : System redis.State} (c : Cell)
      → Implements redis requests s c
      → (step : Step redis requests s t) → Next redis requests c (event redis requests step) t
  unfolding complete release event
  Step-Next {s} c v (miss i p e) = record {
    cell = c;
    allowed = stay c;
    implements = quiet redis requests s c i missed v (λ q. absurd (ground arith)) tt;
  }
  Step-Next {s} c v (look i found r k p e h) =
      left_alone s c i r k v (λ q. absurd (ground arith))
        (subst (Fair redis requests c i s.keys) h
          (check_found-Fair redis requests c i found s.keys (sym e ∙ v.stored)))
  Step-Next {s} c v (claim i r k p h) = claimed_by s c i r k v p h
  Step-Next {s} c v (succeed i body p) =
      ended s c (settled i body) (returned i body) i (answered body) _ v p (settle i body)
        (λ j e. absurd (ground arith))
        (redis.get-set (redis_key requests.key) _ requests.ttl s.keys lives) refl
  Step-Next {s} c v (fail i exc p) =
      ended s c vacant (gave_up i) i (refused exc) _ v p (give_up i) (λ j e. absurd (ground arith))
        (redis.get-delete (redis_key requests.key) (redis_key requests.key) s.keys
          ∙ ground (arith, eq_refl (redis_key requests.key)))
        tt

  -- While the key does not expire, interleaved requests with one key do nothing but what a cell allows:
  -- all that is seen of them, in its order, is a run of the cell from empty, in which work begins only on
  -- an empty cell, only the owner gives it up or settles it, a request is told only the settled response
  -- and is turned away only from a cell that is taken; and Redis and the phases are those of the cell
  -- after this run.
  pub Reach-Implements :
      {s : System redis.State} (reached : Reach redis requests s)
      → (c : Cell) × Allowed (trace redis requests reached) c × Implements redis requests s c
  unfolding trace
  Reach-Implements (start s free idle) = (
    vacant,
    empty,
    record {
      stored = free;
      agrees = λ i. subst (Agrees redis requests vacant i) (sym (idle i)) tt;
      holder = λ i e. absurd (ground arith);
    },
  )
  Reach-Implements (later reached step) =
      let (c, allowed, implements) = Reach-Implements reached in
      let next = Step-Next c implements step in
      (next.cell, moved allowed next.allowed, next.implements)
