-- ===== src/Services/Orders/Creation.antt =====
-- What `create_order` does when the provider accepts and when it refuses.
use seemsim_esim_gateway.Prelude.{
  ℕ, ◌+◌, String, true, Option, none, some, [], ◌∷◌, ◌++◌, ◌≡◌, refl, ap, ◌∙◌, arith, eq_refl,
}
use seemsim_esim_gateway.Python.Runtime.{Runtime}
use seemsim_esim_gateway.Errors.{Exception, message, catches_provider_error}
use seemsim_esim_gateway.Models.{ProviderOrder, OperationLog}
use seemsim_esim_gateway.Exec.{Result, ok, err, returns, try_except_provider}
use seemsim_esim_gateway.Db.{World, M, in_session}
use seemsim_esim_gateway.Db.Table.{find_row, update_row, find-update_row, find-append_new}
use seemsim_esim_gateway.Db.Repositories.Orders as OrderRepository
use seemsim_esim_gateway.Db.Repositories.Orders.{order_key}
use seemsim_esim_gateway.Providers.Base.{BaseEsimProvider, ProviderOrderResult}
use seemsim_esim_gateway.Sync.Order.{sync_order}
use seemsim_esim_gateway.Sync.Outside.{Rest, rest_of, sync_order-Outside}
use seemsim_esim_gateway.Services.Orders.{place_order, order_failed, create_order}
use seemsim_esim_gateway.Services.OrderRows.{new_order, order_request, placed, failed, creation_log}

-- A session around code that raises ends with the tables as they were.
in_session-err :
    {A : Type 0} (m : M A) (w : World) (e : Exception)
    → (m w).0 ≡ err e
    → ((in_session m w).0 ≡ err e) × ((in_session m w).1.tables ≡ w.tables)
unfolding in_session
in_session-err m w e h = ground arith

module _ (rt : Runtime) (provider : BaseEsimProvider) (package_code : String) (quantity : ℕ)
    (idempotency_key : Option String) (w : World) where
  -- The row that `create_order` inserts, and the world in which the provider is called.
  abbrev pub submitted : ProviderOrder
  submitted =
      new_order (rt.uuid4 (w.drawn + 1)) provider.provider_name (rt.uuid4 w.drawn) package_code
        quantity none idempotency_key (order_request package_code quantity) (rt.utc_now w.reads)

  abbrev pub inserted : World
  inserted = record w {
    tables = record w.tables { orders = w.orders ++ submitted ∷ [] };
    drawn = w.drawn + 1 + 1 + 1;
    reads = w.reads + 1;
  }

  abbrev pub op_log_id : String
  op_log_id = rt.uuid4 (w.drawn + 1 + 1)

  -- The row of the operation log for an order that the provider accepted.
  abbrev pub accepted_log : ProviderOrderResult → OperationLog
  accepted_log result =
      creation_log op_log_id provider.provider_name idempotency_key "success"
        (order_request package_code quantity) (some result.raw) none

  create-eq :
      create_order rt provider package_code quantity idempotency_key w
      ≡ try_except_provider
          (place_order rt provider submitted op_log_id)
          (order_failed rt provider submitted op_log_id)
          inserted
  unfolding create_order OrderRepository.create
  create-eq = refl

  refused :
      (exc : Exception)
      → provider.create_order w.exchanges package_code quantity (rt.uuid4 w.drawn) ≡ err exc
      → catches_provider_error exc ≡ true
      → create_order rt provider package_code quantity idempotency_key w
        ≡ order_failed rt provider submitted op_log_id exc
            (record inserted { exchanges = w.exchanges + 1 })
  refused exc e p = create-eq ∙ (unfold place_order in ground arith)

  -- The provider refuses with an error of its own: the exception goes on to the caller. Within the
  -- session the new order then has status "failed" and the exception's text as its reason, and a
  -- "failed" row stands in the operation log; but the session of the request ends with all tables as
  -- they were before, so neither is kept. The new identifier must not be in use.
  pub create_order-refused :
      (exc : Exception)
      → provider.create_order w.exchanges package_code quantity (rt.uuid4 w.drawn) ≡ err exc
      → catches_provider_error exc ≡ true
      → find_row order_key submitted.id w.orders ≡ none
      → let (r, w') = create_order rt provider package_code quantity idempotency_key w in
        let (s, w'') =
          in_session (create_order rt provider package_code quantity idempotency_key) w in
        (r ≡ err exc)
        × (find_row order_key submitted.id w'.orders ≡ some (failed exc submitted))
        × (w'.operation_logs
            ≡ w.operation_logs
              ++ creation_log op_log_id provider.provider_name idempotency_key "failed"
                  (order_request package_code quantity)
                  none
                  (some (message exc))
                ∷ [])
        × (s ≡ err exc)
        × (w''.tables ≡ w.tables)
  unfolding order_failed OrderRepository.mutate OrderRepository.add_operation_log
  create_order-refused exc e p new =
      let q = refused exc e p in
      let s =
        in_session-err (create_order rt provider package_code quantity idempotency_key) w exc
          (ap (λ (x : Result ProviderOrder × World). x.0) q) in
      (
        rw q refl,
        rw q (
            ground (
              arith,
              find-update_row order_key submitted.id (failed exc) (λ _ k. k) submitted.id
                  (w.orders ++ submitted ∷ []),
              eq_refl submitted.id,
              find-append_new order_key w.orders submitted new,
            )),
        rw q refl,
        s.0,
        s.1,
      )

  -- The world in which the post-order synchronisation runs.
  abbrev before_sync : ProviderOrderResult → World
  before_sync result = record inserted {
    tables = record inserted.tables {
      orders = update_row order_key submitted.id (λ _. placed result submitted) inserted.orders;
      operation_logs = w.operation_logs ++ accepted_log result ∷ [];
    };
    exchanges = w.exchanges + 1;
  }

  accepted :
      (result : ProviderOrderResult)
      → provider.create_order w.exchanges package_code quantity (rt.uuid4 w.drawn) ≡ ok result
      → result.iccid ≡ none
      → let (r, w') = create_order rt provider package_code quantity idempotency_key w in
        (returns r ≡ true)
        × (w'
            ≡ (sync_order rt provider
                (placed result submitted)
                "post_order_sync"
                (before_sync result)).1)
  accepted result e n = rw create-eq (
      unfold place_order OrderRepository.mutate OrderRepository.add_operation_log
        OrderRepository.get_by_id in
      ground arith)

  -- The provider accepts without naming an eSIM, as eSIM Access does: then the call returns, whatever
  -- becomes of the synchronisation that follows it, also if that raises; and the operation log
  -- gets exactly one row, with status "success" and the provider's raw answer.
  pub create_order-accepted :
      (result : ProviderOrderResult)
      → provider.create_order w.exchanges package_code quantity (rt.uuid4 w.drawn) ≡ ok result
      → result.iccid ≡ none
      → let (r, w') = create_order rt provider package_code quantity idempotency_key w in
        (returns r ≡ true) × (w'.operation_logs ≡ w.operation_logs ++ accepted_log result ∷ [])
  create_order-accepted result e n =
      let (r, q) = accepted result e n in
      (
        r,
        rw q (
            ap (λ (t : Rest). t.1)
              ((sync_order-Outside (rest_of (before_sync result)) rt provider
                  (placed result submitted) "post_order_sync").at
                (before_sync result) refl)),
      )
