-- ===== src/Reconciliation/Job.antt =====
-- `reconcile_pending_orders` and `sync_catalog_task` of app/tasks/reconciliation.py. Times are microseconds, for the rows, and seconds, for the lock.
use Prim.Native.String.{◌++◌ as append}
use seemsim_esim_gateway.Prelude.{
  ℕ, ◌+◌, ◌-◌, ◌*◌, String, Bool, true, false, List, [], ◌∷◌, if◌then◌else◌,
}
use seemsim_esim_gateway.Python.Runtime.{Runtime}
use seemsim_esim_gateway.Models.{ProviderOrder}
use seemsim_esim_gateway.Exec.{Exec, Result, ok, err, attempt, pure, ◌>>=◌, ◌>>◌}
use seemsim_esim_gateway.Redis.{Redis}
use seemsim_esim_gateway.Db.{M, World, utc_now, in_session}
use seemsim_esim_gateway.Db.Repositories.Orders
use seemsim_esim_gateway.Providers.Base.{BaseEsimProvider}
use seemsim_esim_gateway.Services.Catalog.{sync_catalog}
use seemsim_esim_gateway.Sync.Order.{SyncResult, sync_order}

-- `LOCK_TTL`
abbrev pub lock_ttl : ℕ
lock_ttl = 120

-- `STALE_MINUTES`
abbrev pub stale_minutes : ℕ
stale_minutes = 10

-- The locks in Redis and the state of the services.
pub record Job (L : Type 0) : Type 0 where
  pub locks : L
  pub world : World

abbrev pub lock_key : String → String
lock_key lock_name = append "lock:" lock_name

abbrev pub on_world : {L A : Type 0} → Exec World A → Exec (Job L) A
on_world m j = let (r, w) = m j.world in (r, record j { world = w })

module _ (redis : Redis String) where
  -- `_acquire_lock`
  unfoldable pub acquire_lock : String → Exec (Job redis.State) Bool
  acquire_lock lock_name j =
      let (acquired, l) = redis.set_nx (lock_key lock_name) "1" lock_ttl j.locks in
      (ok acquired, record j { locks = l })

  -- `_release_lock`
  unfoldable pub release_lock : String → Exec (Job redis.State) (Unit {0})
  release_lock lock_name j = (ok tt, record j { locks = redis.delete (lock_key lock_name) j.locks })

  -- The `try` and the `finally` under a lock: the lock is released whatever happens.
  unfoldable pub when_acquired : {A : Type 0} → String → A → M A → Bool → Exec (Job redis.State) A
  unfolding release_lock
  when_acquired lock_name skipped body true j =
      let (r, j') = on_world (in_session body) j in (r, (release_lock lock_name j').1)
  when_acquired lock_name skipped body false j = (ok skipped, j)

  -- What both tasks do around their bodies.
  unfoldable pub locked_run : {A : Type 0} → String → A → M A → Exec (Job redis.State) A
  unfolding acquire_lock when_acquired
  locked_run lock_name skipped body = do
    acquired ← acquire_lock lock_name
    when_acquired lock_name skipped body acquired

-- `if result.state_changed: reconciled += 1`, and the `except` that goes on.
abbrev pub counted : Result SyncResult → ℕ → ℕ
counted (ok r) n = if r.state_changed then n + 1 else n
counted (err e) n = n

module _ (rt : Runtime) (provider : BaseEsimProvider) where
  -- The loop over the orders.
  unfoldable pub reconcile_all : List ProviderOrder → ℕ → M ℕ
  reconcile_all [] reconciled = pure reconciled
  reconcile_all (order ∷ orders) reconciled = do
    outcome ← attempt (sync_order rt provider order "reconciliation")
    reconcile_all orders (counted outcome reconciled)

  -- The body of `async with session_factory()`.
  unfoldable pub reconcile_stale : M ℕ
  unfolding reconcile_all
  reconcile_stale = do
    now ← utc_now rt
    orders ← Orders.get_orders_needing_sync (now - stale_minutes * 60 * 1000000) 50
    reconcile_all orders 0

  -- `reconcile_pending_orders`
  unfoldable pub reconcile_pending_orders : (redis : Redis String) → Exec (Job redis.State) ℕ
  unfolding locked_run reconcile_stale
  reconcile_pending_orders redis = locked_run redis "reconcile_orders" 0 reconcile_stale

  -- `sync_catalog_task`
  unfoldable pub sync_catalog_task : (redis : Redis String) → Exec (Job redis.State) (Unit {0})
  unfolding locked_run
  sync_catalog_task redis = locked_run redis "catalog_sync" tt (do sync_catalog provider; pure tt)
