-- ===== src/Db/Repositories/Orders/Stale.antt =====
-- Which orders `get_orders_needing_sync` selects, how many and in which order.
use mathlib.Core.List.{Memᴰ}
use seemsim_esim_gateway.Prelude.{
  ℕ, ◌≤◌, ◌<◌, String, true, none, some, Option, List, take, length, length-take-le, select_where,
  All, ◌≡◌, ◌≢◌, ◌⊎◌, refl, arith, eq_iff, inl, inr, Option-cases,
}
use seemsim_esim_gateway.Prelude.Membership.{Memᴰ-select_where}
use seemsim_esim_gateway.Models.{ProviderOrder}
use seemsim_esim_gateway.Exec.{ok}
use seemsim_esim_gateway.Db.{World}
use seemsim_esim_gateway.Db.Repositories.Orders.{
  never_or_before, needs_sync, order_by_created, get_orders_needing_sync,
}
use seemsim_esim_gateway.Db.Repositories.Orders.ByCreated.{
  Ascending, All-members, All-take, All-order, Ascending-order, Ascending-take, Memᴰ-order,
  taken-or_later,
}

-- The order is in no terminal status, has a number at the provider, and was last synced before the
-- threshold or never.
pub record Stale (threshold : ℕ) (o : ProviderOrder) : Type 0 where
  pub not_consumed : o.status ≢ "consumed"
  pub not_cancelled : o.status ≢ "cancelled"
  pub not_failed : o.status ≢ "failed"
  pub order_no : String
  pub numbered : o.provider_order_no ≡ some order_no
  pub unsynced :
      (o.last_provider_sync_at ≡ none)
      ⊎ ((t : ℕ) × (o.last_provider_sync_at ≡ some t) × (t < threshold))

before-needed :
    (last : Option ℕ) (threshold : ℕ)
    → (last ≡ none) ⊎ ((t : ℕ) × (last ≡ some t) × (t < threshold))
    → never_or_before last threshold ≡ true
before-needed last threshold (inl never) = ground (arith, never)
before-needed last threshold (inr (t, at, before)) = ground (arith, at, before)

needed-before :
    (last : Option ℕ) (threshold : ℕ)
    → never_or_before last threshold ≡ true
    → (last ≡ none) ⊎ ((t : ℕ) × (last ≡ some t) × (t < threshold))
needed-before none threshold h = inl refl
needed-before (some t) threshold h = inr (t, refl, ground (arith, h))

Stale-needs_sync :
    (threshold : ℕ) (o : ProviderOrder) → Stale threshold o → needs_sync threshold o ≡ true
unfolding needs_sync
Stale-needs_sync threshold o h = ground (
  arith,
  h.not_consumed,
  h.not_cancelled,
  h.not_failed,
  h.numbered,
  eq_iff o.status "consumed",
  eq_iff o.status "cancelled",
  eq_iff o.status "failed",
  before-needed o.last_provider_sync_at threshold h.unsynced,
)

needs_sync-Stale :
    (threshold : ℕ) (o : ProviderOrder) → needs_sync threshold o ≡ true → Stale threshold o
unfolding needs_sync
needs_sync-Stale threshold o h = elim (Option-cases o.provider_order_no) [
  | inl e ↦ absurd (ground (arith, h, e))
  | inr (order_no, e) ↦ record {
    not_consumed = λ q. ground (arith, h, q, eq_iff o.status "consumed");
    not_cancelled = λ q. ground (arith, h, q, eq_iff o.status "cancelled");
    not_failed = λ q. ground (arith, h, q, eq_iff o.status "failed");
    order_no = order_no;
    numbered = e;
    unsynced = needed-before o.last_provider_sync_at threshold (ground (arith, h));
  }
]

-- A stored order that is stale.
abbrev pub Chosen : ℕ → List ProviderOrder → ProviderOrder → Type 0
Chosen threshold rows o = Memᴰ o rows × Stale threshold o

-- A selection of stale orders from the stored ones.
pub record Selection (threshold limit : ℕ) (rows orders : List ProviderOrder) : Type 0 where
  pub chosen : All (Chosen threshold rows) orders
  pub bounded : length orders ≤ limit
  pub ascending : Ascending orders
  -- a stale order is selected, unless the limit is reached by orders that were created no later
  pub complete :
      (o : ProviderOrder)
      → Memᴰ o rows
      → Stale threshold o
      → Memᴰ o orders ⊎ ((length orders ≡ limit) × All (λ x. x.created_at ≤ o.created_at) orders)

-- The query returns and changes nothing. What it gives are at most `limit` stored orders in the order
-- of their creation, each in no terminal status, with a number at the provider and last synced before
-- the threshold or never; and every such order is among them, unless they are `limit` orders that were
-- created no later.
pub get_orders_needing_sync-Selection :
    (stale_threshold limit : ℕ) (w : World)
    → (orders : List ProviderOrder) × (get_orders_needing_sync stale_threshold limit w
        ≡ (ok orders, w))
      × Selection stale_threshold limit w.orders orders
unfolding get_orders_needing_sync
get_orders_needing_sync-Selection stale_threshold limit w =
    let found = select_where (needs_sync stale_threshold) w.orders in
    (
      take limit (order_by_created found),
      refl,
      record {
        chosen = All-take (Chosen stale_threshold w.orders) limit (order_by_created found) (
            All-order (Chosen stale_threshold w.orders) found (
              All-members (Chosen stale_threshold w.orders) found (λ o m.
                let (stored, needed) =
                  (Memᴰ-select_where (needs_sync stale_threshold) o w.orders).0 m in
                (stored, needs_sync-Stale stale_threshold o needed))));
        bounded = length-take-le limit (order_by_created found);
        ascending = Ascending-take limit (order_by_created found) (Ascending-order found);
        complete = λ o stored stale.
            taken-or_later o limit (order_by_created found) (Ascending-order found) (
              Memᴰ-order o found (
                (Memᴰ-select_where (needs_sync stale_threshold) o w.orders).1
                  (stored, Stale-needs_sync stale_threshold o stale)));
      },
    )
