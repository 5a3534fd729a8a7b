-- ===== src/Sync/Terminal.antt =====
-- The stored status of an order across `sync_order` of state_sync.py.
use seemsim_esim_gateway.Prelude.{
  ℕ, String, true, Option, none, some, ◌==◌, ◌≡◌, refl, ap, arith, eq_refl,
}
use mathlib.Core.Option
use seemsim_esim_gateway.Python.Json.{Value, Array, nil, cons, Object}
use seemsim_esim_gateway.Python.Runtime.{Runtime}
use seemsim_esim_gateway.Models.{ProviderOrder, OrderStateHistory}
use seemsim_esim_gateway.Exec.{Result, ok, err}
use seemsim_esim_gateway.Exec.Keeps.{
  Keeps, Keeps-bind, Keeps-bind-lift, Keeps-if, Keeps-pure, Keeps-raise, keeps_rules,
}
use seemsim_esim_gateway.Db.{World, uuid4, utc_now}
use seemsim_esim_gateway.Db.Table.{find_row, find-update_row}
use seemsim_esim_gateway.Db.Repositories.Orders
use seemsim_esim_gateway.Db.Repositories.Orders.{order_key}
use seemsim_esim_gateway.Providers.Base.{BaseEsimProvider}
use seemsim_esim_gateway.Sync.Fields.{is_terminal}
use seemsim_esim_gateway.Sync.Order.{
  as_dict, stamped, apply_primary, order_status_after, merge_all, record_state, merge_list,
  merge_reported, merge_query, after_query, sync_by, sync_order,
}
use seemsim_esim_gateway.Sync.Frame.{others, merge_all-Same}

-- The status of the stored order with this identifier.
abbrev pub stored_status : String → World → Option String
stored_status id w = Option.map (λ o. o.status) (find_row order_key id w.orders)

-- The stored order with this identifier has this status.
abbrev pub HasStatus : String → String → World → Type 0
HasStatus id s w = stored_status id w ≡ some s

module _ (id s : String) where
  mutate-HasStatus :
      (o : ProviderOrder)
      → o.id ≡ id
      → o.status ≡ s
      → Keeps (HasStatus id s) (Orders.mutate id (λ _. o))
  unfolding Orders.mutate
  mutate-HasStatus o p q = record {
    at = λ w h.
        ground (arith, find-update_row order_key id (λ _. o) (λ _ _. p) id w.orders, eq_refl id);
  }

  stamp-HasStatus :
      (now : ℕ) (query : Object) → Keeps (HasStatus id s) (Orders.mutate id (stamped now query))
  unfolding Orders.mutate
  stamp-HasStatus now query = record {
    at = λ w h. ground (
      arith,
      find-update_row order_key id (stamped now query) (λ _ e. e) id w.orders,
      eq_refl id,
    );
  }

  uuid4-HasStatus : (rt : Runtime) → Keeps (HasStatus id s) (uuid4 rt)
  uuid4-HasStatus rt = record { at = λ w h. h }

  utc_now-HasStatus : (rt : Runtime) → Keeps (HasStatus id s) (utc_now rt)
  utc_now-HasStatus rt = record { at = λ w h. h }

  history-HasStatus : (x : OrderStateHistory) → Keeps (HasStatus id s) (Orders.add_state_history x)
  unfolding Orders.add_state_history
  history-HasStatus x = record { at = λ w h. h }

  module _ (rt : Runtime) (provider : BaseEsimProvider) where
    merge_all-HasStatus :
        (order : ProviderOrder) (records : Array) (source : String)
        → Keeps (HasStatus id s) (merge_all rt provider order records source)
    merge_all-HasStatus order records source = record {
      at = λ w h.
          rw
            (ap (λ t. t.0) ((merge_all-Same (others w) rt provider order records source).at w refl))
            h;
    }

    record_state-HasStatus :
        (old new : ProviderOrder) (raw : String) (query : Object) (source : String)
        → Keeps (HasStatus id s) (record_state rt provider old new raw query source)
    unfolding record_state
    record_state-HasStatus old new raw query source =
        search (keeps_rules, uuid4-HasStatus, history-HasStatus)

-- A status that is terminal stays what it is when the primary record is applied.
status-apply_primary :
    (rt : Runtime) (primary : Object) (order : ProviderOrder)
    → is_terminal order.status ≡ true
    → (apply_primary rt primary order).status ≡ order.status
unfolding apply_primary
status-apply_primary rt primary order h = rw (h, order_status_after)

primary-HasStatus :
    (rt : Runtime) (primary : Object) (order : ProviderOrder)
    → is_terminal order.status ≡ true
    → Keeps
        (HasStatus order.id order.status)
        (Orders.mutate order.id (λ _. apply_primary rt primary order))
primary-HasStatus rt primary order h =
    mutate-HasStatus order.id order.status (apply_primary rt primary order)
      (unfold apply_primary in refl) (status-apply_primary rt primary order h)

module _ (rt : Runtime) (provider : BaseEsimProvider) (source : String) where
  merge_list-HasStatus :
      (order : ProviderOrder) (query : Object) (records : Array)
      → is_terminal order.status ≡ true
      → Keeps (HasStatus order.id order.status) (merge_list rt provider order query records source)
  unfolding merge_list
  merge_list-HasStatus order query nil h = Keeps-raise _
  merge_list-HasStatus order query (cons first rest) h =
      search (keeps_rules, primary-HasStatus, record_state-HasStatus, merge_all-HasStatus) depth 7

  merge_reported-HasStatus :
      (order : ProviderOrder) (query : Object)
      → is_terminal order.status ≡ true
      → Keeps (HasStatus order.id order.status) (merge_reported rt provider order query source)
  unfolding merge_reported
  merge_reported-HasStatus order query h = search (keeps_rules, merge_list-HasStatus)

  merge_query-HasStatus :
      (order : ProviderOrder) (query : Value)
      → is_terminal order.status ≡ true
      → Keeps (HasStatus order.id order.status) (merge_query rt provider order query source)
  unfolding merge_query
  merge_query-HasStatus order query h = Keeps-bind-lift (as_dict query) _ λ query_obj _.
      Keeps-bind _ _ (utc_now-HasStatus order.id order.status rt) λ now.
        Keeps-bind _ _ (stamp-HasStatus order.id order.status now query_obj)
          λ _. merge_reported-HasStatus (stamped now query_obj order) query_obj h

  after_query-HasStatus :
      (order : ProviderOrder) (answer : Result Value)
      → is_terminal order.status ≡ true
      → Keeps (HasStatus order.id order.status) (after_query rt provider order source answer)
  unfolding after_query
  after_query-HasStatus order (err e) h = Keeps-pure _
  after_query-HasStatus order (ok query) h = merge_query-HasStatus order query h

  sync_by-HasStatus :
      (number : Option String) (order : ProviderOrder)
      → is_terminal order.status ≡ true
      → Keeps (HasStatus order.id order.status) (sync_by rt provider number order source)
  unfolding sync_by
  sync_by-HasStatus none order h = Keeps-pure _
  sync_by-HasStatus (some number) order h =
      Keeps-if (number == "") _ _ (λ _. Keeps-pure _)
        λ _. record {
          at = λ w k.
              (after_query-HasStatus order (provider.query_order_full w.exchanges number) h).at _ k;
        }

  -- Whatever the provider answers, and also if the merge raises, synchronisation leaves the stored
  -- status of an order as it was, if that status is terminal (consumed, cancelled or failed).
  pub sync_order-terminal :
      (order : ProviderOrder) (w : World)
      → is_terminal order.status ≡ true
      → stored_status order.id w ≡ some order.status
      → stored_status order.id (sync_order rt provider order source w).1 ≡ some order.status
  unfolding sync_order
  sync_order-terminal order w h k = (sync_by-HasStatus order.provider_order_no order h).at w k
