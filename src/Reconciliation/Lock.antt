-- ===== src/Reconciliation/Lock.antt =====
-- The locks around the two tasks of app/tasks/reconciliation.py.
use seemsim_esim_gateway.Prelude.{
  String, true, false, none, some, ◌≡◌, refl, arith, ap, ◌∙◌, eq_refl,
}
use seemsim_esim_gateway.Python.Runtime.{Runtime}
use seemsim_esim_gateway.Exec.{ok, bind_ok}
use seemsim_esim_gateway.Db.{M, in_session}
use seemsim_esim_gateway.Redis.{Redis}
use seemsim_esim_gateway.Providers.Base.{BaseEsimProvider}
use seemsim_esim_gateway.Reconciliation.Job.{
  when_acquired, Job, lock_key, acquire_lock, release_lock, reconcile_pending_orders, locked_run,
  sync_catalog_task, on_world, reconcile_stale,
}

module _ (redis : Redis String) where
  pub acquire_lock-held :
      (name holder : String) (j : Job redis.State)
      → redis.get (lock_key name) j.locks ≡ some holder
      → acquire_lock redis name j ≡ (ok false, j)
  unfolding acquire_lock
  acquire_lock-held name holder j h =
      rw (redis.set_nx-held (lock_key name) holder "1" 120 j.locks h) refl

  pub acquire_lock-free :
      (name : String) (j : Job redis.State)
      → redis.get (lock_key name) j.locks ≡ none
      → acquire_lock redis name j
        ≡ (ok true, record j { locks = redis.set (lock_key name) "1" 120 j.locks })
  unfolding acquire_lock
  acquire_lock-free name j h = rw (redis.set_nx-free (lock_key name) "1" 120 j.locks h) refl

  pub release_lock-frees :
      (name : String) (j : Job redis.State)
      → redis.get (lock_key name) (release_lock redis name j).1.locks ≡ none
  unfolding release_lock
  release_lock-frees name j =
      redis.get-delete (lock_key name) (lock_key name) j.locks
      ∙ ground (arith, eq_refl (lock_key name))

  module _ {A : Type 0} (name : String) (skipped : A) (body : M A) (j : Job redis.State) where
    pub excluded :
        (holder : String)
        → redis.get (lock_key name) j.locks ≡ some holder
        → locked_run redis name skipped body j ≡ (ok skipped, j)
    unfolding locked_run when_acquired
    excluded holder h =
        bind_ok (acquire_lock redis name) (when_acquired redis name skipped body)
          (acquire_lock-held name holder j h)

    released :
        redis.get (lock_key name) j.locks ≡ none
        → redis.get (lock_key name) (locked_run redis name skipped body j).1.locks ≡ none
    unfolding locked_run when_acquired
    released h =
        let taken = record j { locks = redis.set (lock_key name) "1" 120 j.locks } in
        ap (λ p. redis.get (lock_key name) p.1.locks)
          (bind_ok (acquire_lock redis name) (when_acquired redis name skipped body)
            (acquire_lock-free name j h))
        ∙ release_lock-frees name (on_world (in_session body) taken).1

  module _ (rt : Runtime) (provider : BaseEsimProvider) where
    -- A run of the reconciliation that finds its lock taken reports no reconciled order and changes
    -- nothing at all.
    pub reconcile-excluded :
        (j : Job redis.State) (holder : String)
        → redis.get (lock_key "reconcile_orders") j.locks ≡ some holder
        → reconcile_pending_orders rt provider redis j ≡ (ok 0, j)
    unfolding reconcile_pending_orders
    reconcile-excluded j holder h =
        excluded "reconcile_orders" 0 (reconcile_stale rt provider) j holder h

    -- A run of the reconciliation that finds its lock free leaves it free, whether the body succeeds or
    -- raises.
    pub reconcile-released :
        (j : Job redis.State)
        → redis.get (lock_key "reconcile_orders") j.locks ≡ none
        → redis.get
            (lock_key "reconcile_orders")
            (reconcile_pending_orders rt provider redis j).1.locks
          ≡ none
    unfolding reconcile_pending_orders
    reconcile-released j h = released "reconcile_orders" 0 (reconcile_stale rt provider) j h

    -- A run of the catalog task that finds its lock taken changes nothing at all.
    pub sync_catalog_task-excluded :
        (j : Job redis.State) (holder : String)
        → redis.get (lock_key "catalog_sync") j.locks ≡ some holder
        → sync_catalog_task rt provider redis j ≡ (ok tt, j)
    unfolding sync_catalog_task
    sync_catalog_task-excluded j holder h = excluded "catalog_sync" tt _ j holder h

    -- A run of the catalog task that finds its lock free leaves it free, also if the provider or the
    -- sync raises.
    pub sync_catalog_task-released :
        (j : Job redis.State)
        → redis.get (lock_key "catalog_sync") j.locks ≡ none
        → redis.get (lock_key "catalog_sync") (sync_catalog_task rt provider redis j).1.locks ≡ none
    unfolding sync_catalog_task
    sync_catalog_task-released j h = released "catalog_sync" tt _ j h
