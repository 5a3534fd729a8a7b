-- ===== src/Api/Guarded.antt =====
-- The shape that the three mutation endpoints share: the idempotency check, the work, and the
-- completion or the release of the key.
use seemsim_esim_gateway.Prelude.{ℕ, String, Option, none, some, if◌then◌else◌, ◌==◌, nat_eq}
use seemsim_esim_gateway.Exec.{Exec, raise, pure, try_except, ◌>>=◌, ◌>>◌}
use seemsim_esim_gateway.Db.{M}
use seemsim_esim_gateway.Redis.{Redis}
use seemsim_esim_gateway.Idempotency.{
  IdempotencyRecord, processing, completed, check_or_lock, complete, release,
}
use seemsim_esim_gateway.Api.{Gateway, Reply, on_keys, on_world, in_session}

-- `existing.status_code or default`
abbrev pub code_or : Option ℕ → ℕ → ℕ
code_or none default = default
code_or (some n) default = if nat_eq n 0 then default else n

-- A response without content has an empty body.
abbrev pub body_or_empty : Option String → String
body_or_empty none = ""
body_or_empty (some s) = s

-- The code that runs only where an idempotency key was given.
abbrev pub with_key :
    {S : Type 0} → Option String → (String → Exec S (Unit {0})) → Exec S (Unit {0})
with_key none f = pure tt
with_key (some key) f = if key == "" then pure tt else f key

module _ (redis : Redis IdempotencyRecord) (ttl : ℕ) (code : ℕ) (fingerprint : String)
    (work : M String) where
  -- The `try` block and its handler.
  unfoldable pub perform : Option String → Exec (Gateway redis.State) Reply
  perform idempotency_key =
      try_except
        (do
          body ← on_world work
          with_key idempotency_key (λ key. on_keys (complete redis ttl key code body fingerprint))
          pure (record { status = code; body = body }))
        (λ e. do with_key idempotency_key (λ key. on_keys (release redis key)); raise e)

  -- `if existing and existing.status == COMPLETED: return Response(…)`, or the work.
  unfoldable pub answer :
      Option String → Option IdempotencyRecord → Exec (Gateway redis.State) Reply
  unfolding perform
  answer idempotency_key none = perform idempotency_key
  answer idempotency_key (some existing) = elim existing.status [
    | completed ↦ pure (record {
      status = code_or existing.status_code code;
      body = body_or_empty existing.response_body;
    })
    | processing ↦ perform idempotency_key
  ]

  -- The endpoint.
  unfoldable pub endpoint : Option String → Exec (Gateway redis.State) Reply
  unfolding answer
  endpoint none = perform none
  endpoint (some key) = if key == "" then perform (some key) else do
    existing ← on_keys (check_or_lock redis ttl key fingerprint)
    answer (some key) existing

  -- The endpoint in its session.
  unfoldable pub guarded : Option String → Exec (Gateway redis.State) Reply
  unfolding endpoint in_session
  guarded idempotency_key = in_session (endpoint idempotency_key)
