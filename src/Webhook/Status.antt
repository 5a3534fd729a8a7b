-- ===== src/Webhook/Status.antt =====
-- `_handle_order_status` of webhook.py and the status of the order.
use seemsim_esim_gateway.Prelude.{
  String, some, [], ◌∷◌, select_where, ◌≡◌, ◌≢◌, refl, arith, eq_iff, eq_refl,
}
use seemsim_esim_gateway.Models.{ProviderOrder}
use seemsim_esim_gateway.Exec.{ok}
use seemsim_esim_gateway.Db.{World}
use seemsim_esim_gateway.Db.Table.{find_row, find-update_row}
use seemsim_esim_gateway.Db.Repositories.Orders
use seemsim_esim_gateway.Db.Repositories.Orders.{order_key, column_is}
use seemsim_esim_gateway.Providers.Base.{NormalizedWebhook}
use seemsim_esim_gateway.Sync.Terminal.{stored_status}
use seemsim_esim_gateway.Webhook.Handlers.{with_order_status, handle_order_status}

found :
    (order_no : String) (order : ProviderOrder) (w : World)
    → select_where (λ o. column_is o.provider_order_no order_no) w.orders ≡ order ∷ []
    → Orders.get_by_provider_order_no order_no w ≡ (ok (some order), w)
unfolding Orders.get_by_provider_order_no
found order_no order w h = rw h

handled :
    (d : NormalizedWebhook) (order : ProviderOrder) (order_no : String) (w : World)
    → d.order_no ≡ some order_no
    → order_no ≢ ""
    → Orders.get_by_provider_order_no order_no w ≡ (ok (some order), w)
    → handle_order_status d w ≡ Orders.mutate order.id (with_order_status d) w
unfolding handle_order_status
handled d order order_no w h ne one = ground (arith, eq_iff order_no "")

-- An ORDER_STATUS event for the number of exactly one order gives that order the status of the
-- event, whatever it was before: a terminal status is left too, and the order history gets no row.
pub handle_order_status-overwrites :
    (d : NormalizedWebhook) (order : ProviderOrder) (order_no : String) (w : World)
    → d.order_no ≡ some order_no
    → order_no ≢ ""
    → select_where (λ o. column_is o.provider_order_no order_no) w.orders ≡ order ∷ []
    → find_row order_key order.id w.orders ≡ some order
    → let (r, w') = handle_order_status d w in
      (r ≡ ok tt)
      × (stored_status order.id w' ≡ some d.status)
      × (w'.order_state_history ≡ w.order_state_history)
handle_order_status-overwrites d order order_no w h ne one row =
    rw (handled d order order_no w h ne (found order_no order w one)) (
      unfold Orders.mutate in
      (
        refl,
        ground (
          arith,
          find-update_row order_key order.id (with_order_status d) (λ _ e. e) order.id w.orders,
          eq_refl order.id,
        ),
        refl,
      ))
