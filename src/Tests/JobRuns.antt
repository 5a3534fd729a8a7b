-- ===== src/Tests/JobRuns.antt =====
-- Runs of the reconciliation job.
use seemsim_esim_gateway.Reconciliation.Overrun.{acquire_lock-expires, waited}
use seemsim_esim_gateway.Reconciliation.Scheduler.{Intervals, rounds}
use seemsim_esim_gateway.Reconciliation.Rounds.{rounds-Idle, Idle}
use seemsim_esim_gateway.Prelude.{ℕ, String, ◌≤◌, none, List, [], ◌∷◌, ◌≡◌, refl, true}
use seemsim_esim_gateway.Exec.{ok}
use seemsim_esim_gateway.Models.{ProviderOrder}
use seemsim_esim_gateway.Redis.Memory.{Memory, memory}
use seemsim_esim_gateway.Db.Repositories.Orders.{get_orders_needing_sync}
use seemsim_esim_gateway.Db.Repositories.Orders.Stale.{Selection, get_orders_needing_sync-Selection}
use seemsim_esim_gateway.Reconciliation.Job.{
  Job, lock_key, reconcile_pending_orders, sync_catalog_task, acquire_lock, release_lock,
}
use seemsim_esim_gateway.Reconciliation.Lock.{
  reconcile-excluded, reconcile-released, sync_catalog_task-released,
}
use seemsim_esim_gateway.Reconciliation.Progress.{reconcile_pending_orders-returns}
use seemsim_esim_gateway.Tests.Sample.{sample_runtime, accepting, world_with}

-- The lock is free, or another process holds it.
abbrev free : Job (Memory String)
free = record { locks = record { now = 0; entries = [] }; world = world_with "processing" }

abbrev taken : Job (Memory String)
taken = record {
  locks = record {
    now = 0;
    entries = (lock_key "reconcile_orders", record { value = "1"; deadline = 120 }) ∷ [];
  };
  world = world_with "processing";
}

reconcile-excluded_example :
    reconcile_pending_orders sample_runtime accepting memory taken ≡ (ok 0, taken)
unfolding seemsim_esim_gateway.Redis.Memory.get
reconcile-excluded_example = reconcile-excluded memory sample_runtime accepting taken "1" refl

reconcile-released_example :
    memory.get
      (lock_key "reconcile_orders")
      (reconcile_pending_orders sample_runtime accepting memory free).1.locks
    ≡ none
unfolding seemsim_esim_gateway.Redis.Memory.get
reconcile-released_example = reconcile-released memory sample_runtime accepting free refl

reconcile_pending_orders-returns_example :
    (m : ℕ) × ((reconcile_pending_orders sample_runtime accepting memory free).0 ≡ ok m) × (m ≤ 50)
reconcile_pending_orders-returns_example =
    reconcile_pending_orders-returns sample_runtime accepting memory free

get_orders_needing_sync-Selection_example :
    (orders : List ProviderOrder) × (get_orders_needing_sync 1000 50 (world_with "processing")
      ≡ (ok orders, world_with "processing"))
    × Selection 1000 50 (world_with "processing").orders orders
get_orders_needing_sync-Selection_example =
    get_orders_needing_sync-Selection 1000 50 (world_with "processing")

sync_catalog_task-released_example :
    memory.get
      (lock_key "catalog_sync")
      (sync_catalog_task sample_runtime accepting memory free).1.locks
    ≡ none
unfolding seemsim_esim_gateway.Redis.Memory.get
sync_catalog_task-released_example =
    sync_catalog_task-released memory sample_runtime accepting free refl

abbrev every_five_minutes : Intervals
every_five_minutes = record {
  reconciliation_interval_seconds = 300;
  catalog_sync_interval_seconds = 3600;
}

rounds-Idle_example :
    ((rounds memory every_five_minutes sample_runtime accepting 3 free).0 ≡ ok tt)
    × Idle memory (rounds memory every_five_minutes sample_runtime accepting 3 free).1
unfolding seemsim_esim_gateway.Redis.Memory.get
rounds-Idle_example =
    rounds-Idle memory every_five_minutes sample_runtime accepting 3 free
      (record { reconcile_free = refl; catalog_free = refl })

acquire_lock-expires_example :
    let second = waited memory 200 (acquire_lock memory "reconcile_orders" free).1 in
    ((acquire_lock memory "reconcile_orders" second).0 ≡ ok true)
    × ((acquire_lock memory "reconcile_orders"
          (release_lock memory "reconcile_orders"
            (acquire_lock memory "reconcile_orders" second).1).1).0
        ≡ ok true)
unfolding seemsim_esim_gateway.Redis.Memory.get
acquire_lock-expires_example = acquire_lock-expires memory "reconcile_orders" free refl 200
