-- ===== src/App/Repeat.antt =====
-- The same mutation of an order sent twice, over the whole application: app/api/v1/orders.py,
-- app/core/idempotency.py and the check of the caller.
use seemsim_esim_gateway.Prelude.{
  ℕ, ◌<◌, ◌≤◌, String, Bool, true, false, none, Option, some, ◌≡◌, ◌≢◌, arith, inl, inr, ap,
  if◌then◌else◌, ◌∙◌, sym,
}
use mathlib.Core.Path.{subst}
use seemsim_esim_gateway.Errors.{
  Exception, app, builtin, ErrorClass, status_code, error_response, app_error, provider_error,
  provider_authentication_error, provider_rate_limit_error, provider_validation_error,
  provider_unavailable_error, provider_timeout_error, provider_processing_error,
  provider_capability_unavailable_error, resource_not_found_error, integration_conflict_error,
  idempotency_conflict_error, idempotency_processing_error, validation_error, authentication_error,
  authorization_error,
}
use seemsim_esim_gateway.Exec.{Result, ok, err, Result-cases, Exec, pure}
use seemsim_esim_gateway.Python.Runtime.{Runtime}
use seemsim_esim_gateway.Db.{M}
use seemsim_esim_gateway.Redis.{Redis}
use seemsim_esim_gateway.Idempotency.{IdempotencyRecord, redis_key}
use seemsim_esim_gateway.Providers.Base.{BaseEsimProvider}
use seemsim_esim_gateway.Api.{Gateway}
use seemsim_esim_gateway.Api.Guarded.{guarded}
use seemsim_esim_gateway.Api.Replay.{guarded-replay, guarded-release}
use seemsim_esim_gateway.Api.Orders
use seemsim_esim_gateway.Schemas.Order.{is_valid, CreateOrderRequest}
use seemsim_esim_gateway.App.Routes.{Request, scope_of, create_order, topup_order, cancel_order}
use seemsim_esim_gateway.App.Endpoints.{Service, Settings, Reply, json, invalid, on_gateway, handle}
use seemsim_esim_gateway.App.Serve.{Answer, serve, answered, request_id_of, authorised, admit}

-- The header `Idempotency-Key` of a mutation.
abbrev pub idempotency_key_of : Request → Option String
idempotency_key_of (create_order _ _ key) = key
idempotency_key_of (topup_order _ _ _ key) = key
idempotency_key_of (cancel_order _ _ key) = key
idempotency_key_of _ = none

-- No exception is rendered with status 200 or 201.
class_status : (c : ErrorClass) → 202 ≤ status_code c
class_status app_error = omega arith
class_status provider_error = omega arith
class_status provider_authentication_error = omega arith
class_status provider_rate_limit_error = omega arith
class_status provider_validation_error = omega arith
class_status provider_unavailable_error = omega arith
class_status provider_timeout_error = omega arith
class_status provider_processing_error = omega arith
class_status provider_capability_unavailable_error = omega arith
class_status resource_not_found_error = omega arith
class_status integration_conflict_error = omega arith
class_status idempotency_conflict_error = omega arith
class_status idempotency_processing_error = omega arith
class_status validation_error = omega arith
class_status authentication_error = omega arith
class_status authorization_error = omega arith

abbrev rendered : Result seemsim_esim_gateway.Api.Reply → Result Reply
rendered (ok reply) = ok (record { status = reply.status; body = json reply.body })
rendered (err e) = err e

err_ok : {e : Exception} {reply : Reply} → ◌≡◌ {A = Result Reply} (err e) (ok reply) → ⊥
err_ok h = ground arith

refused_status : (id : String) (e : Exception) → (answered id (err e)).reply.status < 202 → ⊥
unfolding answered error_response
refused_status id (app c detail) h = ground (arith, class_status c, h)
refused_status id (builtin name text) h = ground (arith, h)

module _ (keys : Redis IdempotencyRecord) (locks : Redis String) where
  -- Time passes in Redis.
  abbrev pub later_service : ℕ → Service keys.State locks.State → Service keys.State locks.State
  later_service dt s = record s { keys = keys.advance dt s.keys; locks = locks.advance dt s.locks }

  -- Where an endpoint succeeds, it succeeds in the same way some time later, and changes nothing.
  abbrev Repeats :
      Exec (Service keys.State locks.State) Reply → ℕ → Service keys.State locks.State → Type 0
  Repeats endpoint dt s =
      (reply : Reply)
      → (endpoint s).0 ≡ ok reply
      → reply.status < 202
      → endpoint (later_service dt (endpoint s).1) ≡ (ok reply, later_service dt (endpoint s).1)

  -- A body that is not valid is answered with status 422.
  checked-Repeats :
      (b : Bool) (endpoint : Exec (Service keys.State locks.State) Reply) (dt : ℕ)
      (s : Service keys.State locks.State)
      → Repeats endpoint dt s
      → Repeats (if b then endpoint else pure (record { status = 422; body = invalid })) dt s
  checked-Repeats true endpoint dt s h reply e status = h reply e status
  checked-Repeats false endpoint dt s h reply e status = absurd (ground (arith, e, status))

  module _ (ttl code dt : ℕ) (f key : String) (given : key ≢ "") (nonzero : code ≢ 0) (h : dt < ttl)
      (work : M String) (s : Service keys.State locks.State)
      (free : keys.get (redis_key key) s.keys ≡ none) where
    abbrev gateway : Gateway keys.State
    gateway = record { keys = s.keys; world = s.world }

    -- What an endpoint answers, and the service after it.
    abbrev ran_once : Result Reply × Service keys.State locks.State
    ran_once = on_gateway (guarded keys ttl code f work (some key)) s

    abbrev rendered_at :
        Result Reply × Gateway keys.State → Result Reply × Service keys.State locks.State
    rendered_at p = (p.0, record (later_service dt s) { keys = p.1.keys; world = p.1.world })

    guarded-Repeats : Repeats (on_gateway (guarded keys ttl code f work (some key))) dt s
    unfolding on_gateway
    guarded-Repeats reply e status = elim (Result-cases (work s.world).0) [
      | inl (body, w) ↦
          let (first, second) =
            guarded-replay keys ttl code f key given work gateway body (work s.world).1 dt work
              nonzero free (ap (λ r. (r, (work s.world).1)) w) h in
          ap rendered_at (ap (λ p. (rendered p.0, p.1)) second)
          ∙ ap (λ r. (r, later_service dt (ran_once.1))) (sym (ap rendered first) ∙ e)
      | inr (exc, w) ↦
          let (raised, _, _) =
            guarded-release keys ttl code f key given work gateway exc (work s.world).1 free
              (ap (λ r. (r, (work s.world).1)) w) in
          absurd (err_ok (sym (ap rendered raised) ∙ e))
    ]

  module _ (id id' : String) (endpoint : Exec (Service keys.State locks.State) Reply) (dt : ℕ)
      (s : Service keys.State locks.State) (repeats : Repeats endpoint dt s) where
    answered-repeated :
        (r : Result (Unit {0}))
        → (answered id (admit r endpoint s).0).reply.status < 202
        → let (x, s') = admit r endpoint s in
          let (x', s'') = admit r endpoint (later_service dt s') in
          ◌≡◌ {A = Answer × Service keys.State locks.State}
            (answered id' x', s'')
            (record { reply = (answered id x).reply; request_id = some id' }, later_service dt s')
    unfolding answered
    answered-repeated (err e) status = absurd (refused_status id e status)
    answered-repeated (ok _) status = elim (Result-cases (endpoint s).0) [
      | inl (reply, e) ↦
          ap (λ p. (answered id' p.0, p.1))
            (repeats reply e (subst (λ r. (answered id r).reply.status < 202) e status))
          ∙ ap
              (λ r. (
                record { reply = (answered id r).reply; request_id = some id' },
                later_service dt (endpoint s).1,
              ))
              (sym e)
      | inr (exc, e) ↦
          absurd (refused_status id exc (subst (λ r. (answered id r).reply.status < 202) e status))
    ]

  module _ (settings : Settings) (rt : Runtime) (provider : BaseEsimProvider) (dt : ℕ)
      (s : Service keys.State locks.State) (h : dt < settings.api.idempotency_key_ttl_seconds) where
    abbrev mutation_ttl : ℕ
    mutation_ttl = settings.api.idempotency_key_ttl_seconds

    created-Repeats :
        (body : CreateOrderRequest) (raw_body key : String)
        → key ≢ ""
        → keys.get (redis_key key) s.keys ≡ none
        → Repeats
            (handle keys locks settings rt provider (create_order body raw_body (some key)))
            dt
            s
    unfolding handle Orders.create_order
    created-Repeats body raw_body key given free =
        checked-Repeats (is_valid body) _ dt s
          (guarded-Repeats mutation_ttl 201 dt _ key given (ground arith) h _ s free)

    keyed-Repeats :
        (request : Request) (key : String)
        → idempotency_key_of request ≡ some key
        → key ≢ ""
        → keys.get (redis_key key) s.keys ≡ none
        → Repeats (handle keys locks settings rt provider request) dt s
    unfolding handle Orders.topup_order Orders.cancel_order
    keyed-Repeats (create_order body raw_body k) key eq given free =
        subst
          (λ k.
            Repeats (handle keys locks settings rt provider (create_order body raw_body k)) dt s)
          (sym eq) (created-Repeats body raw_body key given free)
    keyed-Repeats (topup_order order_id body raw_body k) key eq given free =
        subst
          (λ k.
            Repeats (handle keys locks settings rt provider (topup_order order_id body raw_body k))
              dt s)
          (sym eq) (guarded-Repeats mutation_ttl 200 dt _ key given (ground arith) h _ s free)
    keyed-Repeats (cancel_order order_id raw_body k) key eq given free =
        subst
          (λ k.
            Repeats (handle keys locks settings rt provider (cancel_order order_id raw_body k)) dt
              s)
          (sym eq) (guarded-Repeats mutation_ttl 200 dt _ key given (ground arith) h _ s free)
    keyed-Repeats _ key eq given free = absurd (ground arith)

    -- A request to place, top up or cancel an order with a key that was free: if it was answered with
    -- status 200 or 201, the same request of the same caller, sent again before the lifetime of the key
    -- is over, gets the same answer, and changes nothing.
    pub serve-repeat :
        (header header' : Option String) (generated generated' : String)
        (credentials : Option String) (request : Request) (key : String)
        → idempotency_key_of request ≡ some key
        → key ≢ ""
        → keys.get (redis_key key) s.keys ≡ none
        → (serve keys locks settings rt provider header generated credentials request
            s).0.reply.status
          < 202
        → let (first, s') =
            serve keys locks settings rt provider header generated credentials request s in
          serve keys locks settings rt provider header' generated' credentials request
            (later_service dt s')
          ≡ (
            record { reply = first.reply; request_id = some (request_id_of header' generated') },
            later_service dt s',
          )
    unfolding serve
    serve-repeat header header' generated generated' credentials request key eq given free status =
        answered-repeated (request_id_of header generated) (request_id_of header' generated')
          (handle keys locks settings rt provider request) dt s
          (keyed-Repeats request key eq given free)
          (authorised (scope_of request) settings.registry credentials) status
