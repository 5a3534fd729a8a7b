-- ===== src/Reconciliation/Scheduler.antt =====
-- `run_scheduler` of app/tasks/reconciliation.py: what `while True` does in its first rounds.
use seemsim_esim_gateway.Prelude.{ℕ, zero, suc, String}
use seemsim_esim_gateway.Python.Runtime.{Runtime}
use seemsim_esim_gateway.Exec.{Exec, ok, attempt, pure, ◌>>◌}
use seemsim_esim_gateway.Redis.{Redis}
use seemsim_esim_gateway.Providers.Base.{BaseEsimProvider}
use seemsim_esim_gateway.Reconciliation.Job.{Job, reconcile_pending_orders, sync_catalog_task}

-- The two intervals of the settings, in seconds.
pub record Intervals : Type 0 where
  pub reconciliation_interval_seconds : ℕ
  pub catalog_sync_interval_seconds : ℕ

module _ (redis : Redis String) where
  -- `asyncio.sleep(seconds)`
  unfoldable pub sleep : ℕ → Exec (Job redis.State) (Unit {0})
  sleep seconds j = (ok tt, record j { locks = redis.advance seconds j.locks })

  module _ (intervals : Intervals) (rt : Runtime) (provider : BaseEsimProvider) where
    -- One round of the loop; an exception of a task is only logged.
    unfoldable pub round : Exec (Job redis.State) (Unit {0})
    unfolding sleep
    round = do
      attempt (reconcile_pending_orders rt provider redis)
      sleep intervals.reconciliation_interval_seconds
      attempt (sync_catalog_task rt provider redis)
      sleep intervals.catalog_sync_interval_seconds

    -- The first rounds.
    unfoldable pub rounds : ℕ → Exec (Job redis.State) (Unit {0})
    unfolding round
    rounds zero = pure tt
    rounds (suc n) = do round; rounds n
