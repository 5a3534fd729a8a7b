-- ===== src/Sync/Repeat.antt =====
-- A second synchronisation that hears what the first one heard: `sync_order` of state_sync.py, twice.
use mathlib.Core.Path.{subst}
use seemsim_esim_gateway.Prelude.{
  ℕ, String, false, Option, none, some, if◌then◌else◌, ◌==◌, ◌≡◌, refl, ap, sym, ◌∙◌, arith,
  eq_refl,
}
use seemsim_esim_gateway.Python.Runtime.{Runtime}
use seemsim_esim_gateway.Models.{ProviderOrder}
use seemsim_esim_gateway.Exec.{ok}
use seemsim_esim_gateway.Db.{World}
use seemsim_esim_gateway.Providers.Base.{BaseEsimProvider}
use seemsim_esim_gateway.Sync.Order.{SyncResult, sync_order}
use seemsim_esim_gateway.Sync.History.{
  Audited, recorded, unrecorded, sync_order-Audited, same_optional_refl,
}
use seemsim_esim_gateway.Sync.Heard.{
  Follows, order_status_after-again, sync_by-Follows, heard, heard_in,
}

-- A synchronisation that reports no change: the statuses are the old ones, and the audit trail did not
-- grow.
pub record Steady (before : ProviderOrder) (r : SyncResult) (w w' : World) : Type 0 where
  pub no_change : r.state_changed ≡ false
  pub status_kept : r.order.status ≡ before.status
  pub provider_status_kept : r.order.provider_status ≡ before.provider_status
  pub history_kept : w'.order_state_history ≡ w.order_state_history

from_audit :
    (before : ProviderOrder) (source : String) (r : SyncResult) (w w' : World)
    → Audited before source r w w'
    → r.order.status ≡ before.status
    → r.order.provider_status ≡ before.provider_status
    → Steady before r w w'
from_audit before source r w w' (recorded x c d e f) p q =
    absurd (ground (arith, eq_refl before.status, same_optional_refl before.provider_status))
from_audit before source r w w' (unrecorded c d e) p q = record {
  no_change = c;
  status_kept = p;
  provider_status_kept = q;
  history_kept = e;
}

heard_again :
    (rep : Option String) (order : ProviderOrder) (first second : SyncResult)
    → Follows rep order first
    → Follows rep first.order second
    → (second.order.status ≡ first.order.status)
      × (second.order.provider_status ≡ first.order.provider_status)
heard_again none order first second f g = (g.status_is, g.provider_status_is)
heard_again (some raw) order first second f g = (
  ground (arith, f.status_is, g.status_is, order_status_after-again order.status raw),
  g.provider_status_is ∙ sym f.provider_status_is,
)

module _ (rt : Runtime) (provider : BaseEsimProvider) where
  heard_alike :
      (number : Option String) (n m : ℕ)
      → provider.query_order_full n ≡ provider.query_order_full m
      → heard rt provider number n ≡ heard rt provider number m
  heard_alike none n m e = refl
  heard_alike (some number) n m e =
      ap (λ query. if number == "" then none else heard_in rt provider (query number)) e

  -- An order was synchronised, and the result is synchronised again, at any later time, while the
  -- provider answers as it did: where both return, the second one reports no change, leaves the
  -- statuses as they were, and adds nothing to the order history.
  pub sync_order-Steady :
      (order : ProviderOrder) (source source' : String) (w w₁ : World) (first second : SyncResult)
      → (sync_order rt provider order source w).0 ≡ ok first
      → provider.query_order_full w₁.exchanges ≡ provider.query_order_full w.exchanges
      → (sync_order rt provider first.order source' w₁).0 ≡ ok second
      → Steady first.order second w₁ (sync_order rt provider first.order source' w₁).1
  unfolding sync_order
  sync_order-Steady order source source' w w₁ first second h same h₁ =
      let f = sync_by-Follows rt provider source order.provider_order_no order w first h in
      let g =
        sync_by-Follows rt provider source' first.order.provider_order_no first.order w₁ second
          h₁ in
      let g' =
        subst (λ rep. Follows rep first.order second)
          (ap (λ number. heard rt provider number w₁.exchanges) f.number_is
            ∙ heard_alike order.provider_order_no w₁.exchanges w.exchanges same)
          g in
      let (p, q) =
        heard_again (heard rt provider order.provider_order_no w.exchanges) order first second f
          g' in
      from_audit first.order source' second w₁ _
        (sync_order-Audited rt provider source' first.order w₁ h₁) p q
