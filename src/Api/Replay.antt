-- ===== src/Api/Replay.antt =====
-- Requests with one idempotency key, over app/core/idempotency.py and the endpoints of orders.py.
use seemsim_esim_gateway.Prelude.{
  ℕ, ◌<◌, String, none, some, ◌≡◌, ◌≢◌, refl, arith, eq_iff, eq_refl,
}
use seemsim_esim_gateway.Errors.{
  Exception, new_error, idempotency_conflict_error, idempotency_processing_error,
}
use seemsim_esim_gateway.Exec.{Result, ok, err}
use seemsim_esim_gateway.Db.{M, World}
use seemsim_esim_gateway.Redis.{Redis}
use seemsim_esim_gateway.Idempotency.{
  IdempotencyRecord, completed, redis_key, locked, check_or_lock, complete, release,
}
use seemsim_esim_gateway.Api.{Gateway}
use seemsim_esim_gateway.Api.Guarded.{guarded}

-- The record that a completed request leaves.
abbrev finished : ℕ → String → String → IdempotencyRecord
finished code body f = record {
  status = completed;
  status_code = some code;
  response_body = some body;
  request_fingerprint = some f;
}

module _ (redis : Redis IdempotencyRecord) (ttl code : ℕ) (key : String) (given : key ≢ "") where
  -- A request whose key is held by a request in progress with the same fingerprint is refused with
  -- `IDEMPOTENCY_PROCESSING`, whatever its work is, and changes nothing.
  pub guarded-processing :
      (f : String) (work : M String) (g : Gateway redis.State)
      → redis.get (redis_key key) g.keys ≡ some (locked f)
      → guarded redis ttl code f work (some key) g
        ≡ (err (new_error idempotency_processing_error ""), g)
  unfolding guarded check_or_lock
  guarded-processing f work g h = ground (arith, eq_iff key "", eq_refl f)

  -- A request whose key belongs to a request with another, non-empty fingerprint is refused with
  -- `IDEMPOTENCY_CONFLICT`, whatever its work is; nothing changes, so the key is not released.
  pub guarded-conflict :
      (f f' : String) (found : IdempotencyRecord) (work : M String) (g : Gateway redis.State)
      → redis.get (redis_key key) g.keys ≡ some found
      → found.request_fingerprint ≡ some f'
      → f' ≢ ""
      → f' ≢ f
      → guarded redis ttl code f work (some key) g ≡ (
        err (
            new_error idempotency_conflict_error
              "Idempotency key already used with a different request"),
        g,
      )
  unfolding guarded check_or_lock
  guarded-conflict f f' found work g h p q r =
      ground (arith, eq_iff key "", eq_iff f' "", eq_iff f' f)

-- Time passes in Redis.
abbrev pub later : (redis : Redis IdempotencyRecord) → ℕ → Gateway redis.State → Gateway redis.State
later redis dt g = record g { keys = redis.advance dt g.keys }

module _ (redis : Redis IdempotencyRecord) (ttl code : ℕ) (f key : String) (given : key ≢ "")
    (work : M String) (g : Gateway redis.State) where
  -- The state in which the work of a request with a free key runs, and what it returns.
  abbrev ran : Result String × World
  ran = work g.world

  abbrev Free : Type 0
  Free = redis.get (redis_key key) g.keys ≡ none

  first_ok :
      (free : Free) (body : String) (w : World)
      → work g.world ≡ (ok body, w)
      → guarded redis ttl code f work (some key) g ≡ (
        ok (record { status = code; body = body }),
        record {
          keys =
              redis.set
                (redis_key key)
                (finished code body f)
                ttl
                (redis.set (redis_key key) (locked f) ttl g.keys);
          world = w;
        },
      )
  unfolding guarded check_or_lock complete
  first_ok free body w e =
      ground (arith, eq_iff key "", redis.set_nx-free (redis_key key) (locked f) ttl g.keys free)

  first_err :
      (free : Free) (exc : Exception) (w : World)
      → work g.world ≡ (err exc, w)
      → guarded redis ttl code f work (some key) g ≡ (
        err exc,
        record {
          keys = redis.delete (redis_key key) (redis.set (redis_key key) (locked f) ttl g.keys);
          world = record w { tables = g.world.tables };
        },
      )
  unfolding guarded check_or_lock release
  first_err free exc w e =
      ground (arith, eq_iff key "", redis.set_nx-free (redis_key key) (locked f) ttl g.keys free)

  -- The key was free and the work returned: then for the lifetime of the key a request with the same
  -- key and fingerprint gets the same response, whatever its work is, and changes nothing.
  pub guarded-replay :
      (body : String) (w : World) (dt : ℕ) (work' : M String)
      → code ≢ 0
      → Free
      → work g.world ≡ (ok body, w)
      → dt < ttl
      → let (r, g') = guarded redis ttl code f work (some key) g in
        (r ≡ ok (record { status = code; body = body }))
        × (guarded redis ttl code f work' (some key) (later redis dt g')
            ≡ (ok (record { status = code; body = body }), later redis dt g'))
  guarded-replay body w dt work' c free e h = rw (first_ok free body w e) (
    refl,
    unfold guarded check_or_lock in
        ground (
          arith,
          eq_iff key "",
          eq_refl f,
          redis.get-advance-set (redis_key key) (finished code body f) ttl dt
              (redis.set (redis_key key) (locked f) ttl g.keys),
        ),
  )

  -- The key was free and the work raised: the exception is the answer, the tables are as before, and
  -- the key is free again, so that a retry does its own work.
  pub guarded-release :
      (exc : Exception) (w : World)
      → Free
      → work g.world ≡ (err exc, w)
      → let (r, g') = guarded redis ttl code f work (some key) g in
        (r ≡ err exc)
        × (g'.world.tables ≡ g.world.tables)
        × (redis.get (redis_key key) g'.keys ≡ none)
  guarded-release exc w free e = rw (first_err free exc w e) (
    refl,
    refl,
    ground (
      arith,
      eq_refl (redis_key key),
      redis.get-delete (redis_key key) (redis_key key)
          (redis.set (redis_key key) (locked f) ttl g.keys),
    ),
  )
