-- ===== src/Reconciliation/Progress.antt =====
-- The loop of `reconcile_pending_orders` and its results.
use seemsim_esim_gateway.Prelude.{
  ℕ, String, ◌+◌, ◌-◌, ◌*◌, ◌≤◌, Bool, true, false, List, [], ◌∷◌, length, ◌≡◌, refl, arith, ap,
  ◌∙◌,
}
use seemsim_esim_gateway.Python.Runtime.{Runtime}
use seemsim_esim_gateway.Models.{ProviderOrder}
use seemsim_esim_gateway.Exec.{Result, ok, err, bind_ok}
use seemsim_esim_gateway.Db.{World, M, in_session}
use seemsim_esim_gateway.Redis.{Redis}
use seemsim_esim_gateway.Db.Repositories.Orders.{get_orders_needing_sync}
use seemsim_esim_gateway.Db.Repositories.Orders.Stale.{get_orders_needing_sync-Selection}
use seemsim_esim_gateway.Providers.Base.{BaseEsimProvider}
use seemsim_esim_gateway.Sync.Order.{SyncResult, sync_order}
use seemsim_esim_gateway.Reconciliation.Job.{
  Job, lock_key, stale_minutes, acquire_lock, locked_run, when_acquired, counted, reconcile_all,
  reconcile_stale, reconcile_pending_orders,
}

counted-bounds : (r : Result SyncResult) (n : ℕ) → (n ≤ counted r n) × (counted r n ≤ n + 1)
counted-bounds (ok r) n = (ground arith, ground arith)
counted-bounds (err e) n = (omega arith, omega arith)

in_session-ok :
    {A : Type 0} (m : M A) (w : World) {a : A} → (m w).0 ≡ ok a → (in_session m w).0 ≡ ok a
unfolding in_session
in_session-ok m w h = rw (h, in_session) refl

module _ (rt : Runtime) (provider : BaseEsimProvider) where
  -- The loop over the orders never raises, whatever the syncs of the single orders do, and adds at
  -- most one per order to the count.
  pub reconcile_all-returns :
      (orders : List ProviderOrder) (n : ℕ) (w : World)
      → (m : ℕ) × ((reconcile_all rt provider orders n w).0 ≡ ok m)
        × (n ≤ m)
        × (m ≤ n + length orders)
  unfolding reconcile_all
  reconcile_all-returns [] n w = (n, refl, omega arith, omega arith)
  reconcile_all-returns (order ∷ orders) n w =
      let (r, w') = sync_order rt provider order "reconciliation" w in
      let (m, e, low, high) = reconcile_all-returns orders (counted r n) w' in
      let (below, above) = counted-bounds r n in
      (m, e, omega (arith, low, below), omega (arith, high, above))

  reconcile_stale-returns :
      (w : World) → (m : ℕ) × ((reconcile_stale rt provider w).0 ≡ ok m) × (m ≤ 50)
  unfolding reconcile_stale
  reconcile_stale-returns w =
      let w' = record w { reads = w.reads + 1 } in
      let threshold = rt.utc_now w.reads - stale_minutes * 60 * 1000000 in
      let (orders, e, s) = get_orders_needing_sync-Selection threshold 50 w' in
      let (m, r, low, high) = reconcile_all-returns orders 0 w' in
      (
        m,
        ap (λ p. p.0)
              (bind_ok (get_orders_needing_sync threshold 50) (λ os. reconcile_all rt provider os 0)
                e)
            ∙ r,
        omega (arith, high, s.bounded),
      )

  module _ (redis : Redis String) where
    when_acquired-returns :
        (acquired : Bool) (j : Job redis.State)
        → (m : ℕ) × ((when_acquired redis "reconcile_orders" 0
              (reconcile_stale rt provider)
              acquired
              j).0
            ≡ ok m)
          × (m ≤ 50)
    unfolding when_acquired
    when_acquired-returns false j = (0, refl, omega arith)
    when_acquired-returns true j =
        let (m, r, high) = reconcile_stale-returns j.world in
        (m, in_session-ok (reconcile_stale rt provider) j.world r, high)

    -- A run of the job never raises, whatever the provider answers, and reports at most 50 orders.
    pub reconcile_pending_orders-returns :
        (j : Job redis.State)
        → (m : ℕ) × ((reconcile_pending_orders rt provider redis j).0 ≡ ok m) × (m ≤ 50)
    unfolding reconcile_pending_orders locked_run acquire_lock
    reconcile_pending_orders-returns j =
        let (acquired, l) = redis.set_nx (lock_key "reconcile_orders") "1" 120 j.locks in
        when_acquired-returns acquired (record j { locks = l })
