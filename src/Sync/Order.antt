-- ===== src/Sync/Order.antt =====
-- `ProviderStateSyncer.sync_order` of state_sync.py.
use seemsim_esim_gateway.Prelude.{
  ℕ, String, Bool, true, false, not, ◌&&◌, ◌||◌, Option, none, some, List, [], ◌∷◌, if◌then◌else◌,
  ◌==◌,
}
use seemsim_esim_gateway.Python.Json.{Value, list, dict, Array, nil, cons, Object, get, truthy}
use seemsim_esim_gateway.Python.Runtime.{Runtime, str_of, str_or_empty}
use seemsim_esim_gateway.Errors.{builtin}
use seemsim_esim_gateway.Models.{ProviderOrder, OrderStateHistory}
use seemsim_esim_gateway.Models.Esim.{Esim}
use seemsim_esim_gateway.Exec.{Result, ok, err, attempt, lift, pure, raise, ◌>>=◌, ◌>>◌}
use seemsim_esim_gateway.Db.{M, uuid4, utc_now, call}
use seemsim_esim_gateway.Db.Repositories.Orders
use seemsim_esim_gateway.Db.Repositories.Orders.{column_is}
use seemsim_esim_gateway.Providers.Base.{BaseEsimProvider}
use seemsim_esim_gateway.Sync.Fields.{map_status, is_terminal}
use seemsim_esim_gateway.Sync.Merge.{merge_esim_record}

pub record SyncResult : Type 0 where
  pub order : ProviderOrder
  pub esims : List Esim
  pub state_changed : Bool

abbrev pub unchanged : ProviderOrder → SyncResult
unchanged order = record { order = order; esims = []; state_changed = false }

-- `value.get(…)` on what should be a dict.
abbrev pub as_dict : Value → Result Object
as_dict (dict o) = ok o
as_dict _ = err (builtin "AttributeError" "object has no attribute 'get'")

-- `value[0]`, and the iteration, over what should be a list.
abbrev pub as_list : Value → Result Array
as_list (list a) = ok a
as_list _ = err (builtin "TypeError" "object is not a list")

-- `if not order.provider_order_no`
abbrev pub is_blank : Option String → Bool
is_blank none = true
is_blank (some s) = s == ""

-- The status of the order after the primary record's.
unfoldable pub order_status_after : String → String → String
order_status_after old_status raw = if is_terminal old_status then old_status else map_status raw

-- `if iccid and not order.iccid: order.iccid = str(iccid)`
unfoldable pub iccid_after : Runtime → Option String → Value → Option String
iccid_after rt old iccid = if truthy iccid && is_blank old then some (str_of rt iccid) else old

-- The assignments to the order from the primary record.
unfoldable pub apply_primary : Runtime → Object → ProviderOrder → ProviderOrder
unfolding order_status_after iccid_after
apply_primary rt primary order =
    let raw = str_or_empty rt (get primary "esimStatus") in
    record order {
      status = order_status_after order.status raw;
      provider_status = some raw;
      iccid = iccid_after rt order.iccid (get primary "iccid");
    }

-- `old_status != new_internal_status or old_provider_status != new_provider_status`
unfoldable pub has_changed : ProviderOrder → ProviderOrder → String → Bool
has_changed old new new_provider_status =
    not (old.status == new.status) || not (column_is old.provider_status new_provider_status)

-- The assignments of `last_provider_sync_at` and `last_provider_payload`.
abbrev pub stamped : ℕ → Object → ProviderOrder → ProviderOrder
stamped now query_obj order = record order {
  last_provider_sync_at = some now;
  last_provider_payload = some query_obj;
}

-- The audit row of a change of the order's state.
abbrev pub state_row :
    String → ProviderOrder → ProviderOrder → String → Object → String → OrderStateHistory
state_row id old new new_provider_status query_obj source = record {
  id = id;
  order_id = old.id;
  old_status = some old.status;
  new_status = some new.status;
  old_provider_status = old.provider_status;
  new_provider_status = some new_provider_status;
  source = source;
  payload_json = some query_obj;
}

module _ (rt : Runtime) (provider : BaseEsimProvider) where
  -- One round of the loop over `esim_list`; `rest` is the remaining rounds.
  unfoldable pub merge_next : ProviderOrder → Value → String → M (List Esim) → M (List Esim)
  merge_next order v source rest = do
    entry ← lift (as_dict v)
    if truthy (get entry "iccid")
        then (do
          esim ← merge_esim_record rt provider order entry source
          esims ← rest
          pure (esim ∷ esims))
        else rest

  -- The loop over `esim_list`.
  unfoldable pub merge_all : ProviderOrder → Array → String → M (List Esim)
  unfolding merge_next
  merge_all order nil source = pure []
  merge_all order (cons v records) source =
      merge_next order v source (merge_all order records source)

  -- `if state_changed:` and its block.
  unfoldable pub record_state :
      ProviderOrder → ProviderOrder → String → Object → String → M (Unit {0})
  record_state old new new_provider_status query_obj source =
      if has_changed old new new_provider_status
      then (do
        id ← uuid4 rt
        Orders.add_state_history (state_row id old new new_provider_status query_obj source)
        pure tt)
      else pure tt

  -- From `primary = esim_list[0]` to the end.
  unfoldable pub merge_list : ProviderOrder → Object → Array → String → M SyncResult
  unfolding record_state apply_primary has_changed
  merge_list order query_obj nil source = raise (builtin "IndexError" "list index out of range")
  merge_list order query_obj (cons first others) source = do
    primary ← lift (as_dict first)
    let new = apply_primary rt primary order
    let raw = str_or_empty rt (get primary "esimStatus")
    Orders.mutate order.id (λ _. new)
    record_state order new raw query_obj source
    esims ← merge_all new (cons first others) source
    pure (record { order = new; esims = esims; state_changed = has_changed order new raw })

  -- From `if not esim_list` to the end, for the order with its new time of synchronisation.
  unfoldable pub merge_reported : ProviderOrder → Object → String → M SyncResult
  unfolding merge_list
  merge_reported order query_obj source =
      if truthy (get query_obj "esimList")
      then (do
        records ← lift (as_list (get query_obj "esimList"))
        merge_list order query_obj records source)
      else pure (unchanged order)

  -- What follows a successful query.
  unfoldable pub merge_query : ProviderOrder → Value → String → M SyncResult
  unfolding merge_reported
  merge_query order query source = do
    query_obj ← lift (as_dict query)
    now ← utc_now rt
    Orders.mutate order.id (stamped now query_obj)
    merge_reported (stamped now query_obj order) query_obj source

  -- `try: query_obj = … except Exception: return SyncResult(order=order)`
  unfoldable pub after_query : ProviderOrder → String → Result Value → M SyncResult
  after_query order source (err e) = pure (unchanged order)
  after_query order source (ok query) = merge_query order query source

  -- The test of `order.provider_order_no`, and the query.
  unfoldable pub sync_by : Option String → ProviderOrder → String → M SyncResult
  unfolding after_query
  sync_by none order source = pure (unchanged order)
  sync_by (some order_no) order source = if order_no == "" then pure (unchanged order) else do
    answer ← attempt (call (λ n. provider.query_order_full n order_no))
    after_query order source answer

  -- `sync_order`
  unfoldable pub sync_order : ProviderOrder → String → M SyncResult
  unfolding sync_by
  sync_order order source = sync_by order.provider_order_no order source
