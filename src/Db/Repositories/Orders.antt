-- ===== src/Db/Repositories/Orders.antt =====
-- app/repositories/order.py, order_state_history.py and operation_log.py.
pub mod ByCreated
pub mod Stale
use seemsim_esim_gateway.Prelude.{
  ℕ, String, Bool, true, false, not, ◌&&◌, ◌||◌, Option, none, some, List, [], ◌∷◌, ◌++◌, take,
  select_where, contains, if◌then◌else◌, ◌==◌, ltb, leb, reverse,
}
use seemsim_esim_gateway.Python.Json.{Object, end, dict}
use seemsim_esim_gateway.Models.{ProviderOrder, OrderStateHistory, OperationLog}
use seemsim_esim_gateway.Exec.{gets, lift, ◌>>=◌, ◌>>◌, pure}
use seemsim_esim_gateway.Db.{Tables, World, M, modify_tables}
use seemsim_esim_gateway.Db.Table.{find_row, update_row, scalar_one_or_none}

abbrev pub order_key : ProviderOrder → String
order_key o = o.id

-- `ProviderOrder.column == k`, which is not true of a null column.
abbrev pub column_is : Option String → String → Bool
column_is none k = false
column_is (some s) k = s == k

abbrev pub set_orders : (List ProviderOrder → List ProviderOrder) → M (Unit {0})
set_orders f = modify_tables (λ t. record t { orders = f t.orders })

-- `OrderRepository.create`
unfoldable pub create : ProviderOrder → M ProviderOrder
create order = do set_orders (λ rows. rows ++ order ∷ []); pure order

-- `OrderRepository.get_by_id`
unfoldable pub get_by_id : String → M (Option ProviderOrder)
get_by_id order_id = gets (λ w. find_row order_key order_id w.orders)

-- `OrderRepository.get_by_id_locked`: the read, in a process of its own.
unfoldable pub get_by_id_locked : String → M (Option ProviderOrder)
get_by_id_locked order_id = do
  rows ← gets (λ w. w.orders)
  lift (scalar_one_or_none (select_where (λ o. o.id == order_id) rows))

-- An attribute of the object is set: the row with its identifier changes.
unfoldable pub mutate : String → (ProviderOrder → ProviderOrder) → M (Unit {0})
mutate order_id f = set_orders (update_row order_key order_id f)

-- `OrderRepository.get_by_provider_order_no`
unfoldable pub get_by_provider_order_no : String → M (Option ProviderOrder)
get_by_provider_order_no order_no = do
  rows ← gets (λ w. w.orders)
  lift (scalar_one_or_none (select_where (λ o. column_is o.provider_order_no order_no) rows))

-- `OrderRepository.get_by_transaction_id`
unfoldable pub get_by_transaction_id : String → M (Option ProviderOrder)
get_by_transaction_id transaction_id = do
  rows ← gets (λ w. w.orders)
  lift (scalar_one_or_none (select_where (λ o. o.transaction_id == transaction_id) rows))

-- `OrderRepository.get_pending_orders`
unfoldable pub get_pending_orders : M (List ProviderOrder)
get_pending_orders = do
  rows ← gets (λ w. w.orders)
  pure (select_where (λ o. contains o.status ("pending" ∷ "processing" ∷ [])) rows)

abbrev pub never_or_before : Option ℕ → ℕ → Bool
never_or_before none threshold = true
never_or_before (some t) threshold = ltb t threshold

abbrev pub is_some : {A : Type 0} → Option A → Bool
is_some none = false
is_some (some _) = true

-- The `where` clauses of `get_orders_needing_sync`.
unfoldable pub needs_sync : ℕ → ProviderOrder → Bool
needs_sync stale_threshold o =
    not (contains o.status ("consumed" ∷ "cancelled" ∷ "failed" ∷ []))
    && is_some o.provider_order_no
    && never_or_before o.last_provider_sync_at stale_threshold

-- `order_by(created_at)`: insertion before the first later row, which keeps ties in order.
unfoldable pub insert_by_created : ProviderOrder → List ProviderOrder → List ProviderOrder
insert_by_created o [] = o ∷ []
insert_by_created o (x ∷ xs) =
    let rest = insert_by_created o xs in
    if leb o.created_at x.created_at then o ∷ x ∷ xs else x ∷ rest

unfoldable pub order_by_created : List ProviderOrder → List ProviderOrder
unfolding insert_by_created
order_by_created [] = []
order_by_created (o ∷ os) = insert_by_created o (order_by_created os)

-- `OrderRepository.get_orders_needing_sync`
unfoldable pub get_orders_needing_sync : ℕ → ℕ → M (List ProviderOrder)
unfolding needs_sync order_by_created
get_orders_needing_sync stale_threshold limit = do
  rows ← gets (λ w. w.orders)
  pure (take limit (order_by_created (select_where (needs_sync stale_threshold) rows)))

abbrev when_text :
    Option String → (String → ProviderOrder → ProviderOrder) → ProviderOrder → ProviderOrder
when_text none f o = o
when_text (some s) f o = if s == "" then o else f s o

abbrev when_dict :
    Option Object → (Object → ProviderOrder → ProviderOrder) → ProviderOrder → ProviderOrder
when_dict none f o = o
when_dict (some end) f o = o
when_dict (some d) f o = f d o

-- The assignments of `OrderRepository.update_status`.
unfoldable pub with_status :
    String
    → Option String
    → Option String
    → Option String
    → Option Object
    → ProviderOrder
    → ProviderOrder
with_status status provider_order_no iccid failure_reason raw_response order =
    let o₁ = record order { status = status } in
    let o₂ = when_text provider_order_no (λ s o. record o { provider_order_no = some s }) o₁ in
    let o₃ = when_text iccid (λ s o. record o { iccid = some s }) o₂ in
    let o₄ = when_text failure_reason (λ s o. record o { failure_reason = some s }) o₃ in
    when_dict raw_response (λ d o. record o { raw_provider_response = some (dict d) }) o₄

-- `OrderRepository.update_status`
unfoldable pub update_status :
    String
    → String
    → Option String
    → Option String
    → Option String
    → Option Object
    → M (Option ProviderOrder)
unfolding get_by_id mutate with_status
update_status order_id status provider_order_no iccid failure_reason raw_response = do
  found ← get_by_id order_id
  elim found [
    | none ↦ pure none
    | some order ↦ do
      mutate order_id (with_status status provider_order_no iccid failure_reason raw_response)
      get_by_id order_id
  ]

-- `OrderStateHistoryRepository.create`
unfoldable pub add_state_history : OrderStateHistory → M OrderStateHistory
add_state_history entry = do
  modify_tables (λ t. record t { order_state_history = t.order_state_history ++ entry ∷ [] })
  pure entry

-- `OrderStateHistoryRepository.get_by_order_id`; rows are inserted in the order of their
-- `created_at`.
unfoldable pub get_state_history : String → M (List OrderStateHistory)
get_state_history order_id = do
  rows ← gets (λ w. w.order_state_history)
  pure (reverse (select_where (λ h. h.order_id == order_id) rows))

-- `OperationLogRepository.create`
unfoldable pub add_operation_log : OperationLog → M OperationLog
add_operation_log log = do
  modify_tables (λ t. record t { operation_logs = t.operation_logs ++ log ∷ [] })
  pure log
