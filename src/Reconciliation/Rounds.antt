-- ===== src/Reconciliation/Rounds.antt =====
-- The locks over the rounds of the scheduler of app/tasks/reconciliation.py.
use seemsim_esim_gateway.Prelude.{
  ℕ, zero, suc, String, none, ◌≡◌, ◌≢◌, refl, ap, sym, ◌∙◌, arith, eq_iff,
}
use seemsim_esim_gateway.Python.Runtime.{Runtime}
use seemsim_esim_gateway.Exec.{ok, bind_ok}
use seemsim_esim_gateway.Db.{M}
use seemsim_esim_gateway.Redis.{Redis}
use seemsim_esim_gateway.Providers.Base.{BaseEsimProvider}
use seemsim_esim_gateway.Reconciliation.Job.{
  Job, lock_key, locked_run, when_acquired, acquire_lock, release_lock, reconcile_stale,
  reconcile_pending_orders, sync_catalog_task,
}
use seemsim_esim_gateway.Reconciliation.Lock.{
  acquire_lock-free, reconcile-released, sync_catalog_task-released,
}
use seemsim_esim_gateway.Reconciliation.Scheduler.{Intervals, sleep, round, rounds}

abbrev reconcile_key : String
reconcile_key = lock_key "reconcile_orders"

abbrev catalog_key : String
catalog_key = lock_key "catalog_sync"

keys_differ : reconcile_key ≢ catalog_key
keys_differ e = absurd (ground (arith, eq_iff reconcile_key catalog_key, e))

-- Both locks are free.
pub record Idle (redis : Redis String) (j : Job redis.State) : Type 0 where
  pub reconcile_free : redis.get (lock_key "reconcile_orders") j.locks ≡ none
  pub catalog_free : redis.get (lock_key "catalog_sync") j.locks ≡ none

module _ (redis : Redis String) where
  locked_run-others :
      {A : Type 0} (name k : String) (skipped : A) (body : M A) (j : Job redis.State)
      → redis.get (lock_key name) j.locks ≡ none
      → lock_key name ≢ k
      → redis.get k (locked_run redis name skipped body j).1.locks ≡ redis.get k j.locks
  unfolding locked_run when_acquired release_lock
  locked_run-others name k skipped body j free ne =
      ap (λ p. redis.get k p.1.locks)
        (bind_ok (acquire_lock redis name) (when_acquired redis name skipped body)
          (acquire_lock-free redis name j free))
      ∙ redis.get-delete (lock_key name) k (redis.set (lock_key name) "1" 120 j.locks)
      ∙ ground (
        arith,
        eq_iff (lock_key name) k,
        redis.get-set_other (lock_key name) k "1" 120 j.locks ne,
      )

  sleep-Idle :
      (seconds : ℕ) (j : Job redis.State) → Idle redis j → Idle redis (sleep redis seconds j).1
  unfolding sleep
  sleep-Idle seconds j h = record {
    reconcile_free = redis.get-advance_gone reconcile_key seconds j.locks h.reconcile_free;
    catalog_free = redis.get-advance_gone catalog_key seconds j.locks h.catalog_free;
  }

  module _ (intervals : Intervals) (rt : Runtime) (provider : BaseEsimProvider) where
    reconcile-Idle :
        (j : Job redis.State)
        → Idle redis j
        → Idle redis (reconcile_pending_orders rt provider redis j).1
    unfolding reconcile_pending_orders
    reconcile-Idle j h = record {
      reconcile_free = reconcile-released redis rt provider j h.reconcile_free;
      catalog_free =
          locked_run-others "reconcile_orders" catalog_key 0 (reconcile_stale rt provider) j
            h.reconcile_free keys_differ
          ∙ h.catalog_free;
    }

    catalog-Idle :
        (j : Job redis.State) → Idle redis j → Idle redis (sync_catalog_task rt provider redis j).1
    unfolding sync_catalog_task
    catalog-Idle j h = record {
      reconcile_free =
          locked_run-others "catalog_sync" reconcile_key tt _ j h.catalog_free
            (λ e. keys_differ (sym e))
          ∙ h.reconcile_free;
      catalog_free = sync_catalog_task-released redis rt provider j h.catalog_free;
    }

    round-Idle :
        (j : Job redis.State) → Idle redis j → Idle redis (round redis intervals rt provider j).1
    unfolding round
    round-Idle j h = sleep-Idle intervals.catalog_sync_interval_seconds _ (
        catalog-Idle _
          (sleep-Idle intervals.reconciliation_interval_seconds _ (reconcile-Idle j h)))

    -- From a state in which both locks are free, the scheduler reaches every round, and finds both
    -- locks free in it, whatever failed in the rounds before.
    pub rounds-Idle :
        (n : ℕ) (j : Job redis.State)
        → Idle redis j
        → ((rounds redis intervals rt provider n j).0 ≡ ok tt)
          × Idle redis (rounds redis intervals rt provider n j).1
    unfolding rounds
    rounds-Idle zero j h = (refl, h)
    rounds-Idle (suc n) j h = rounds-Idle n _ (round-Idle j h)
