-- ===== src/Tests/SyncRuns.antt =====
-- Runs of the synchronisation.
use seemsim_esim_gateway.Sync.Repeat.{Steady, sync_order-Steady}
use seemsim_esim_gateway.Prelude.{none, some, ◌≡◌, refl}
use seemsim_esim_gateway.Exec.{ok}
use seemsim_esim_gateway.Models.Esim.{Esim, imsi}
use seemsim_esim_gateway.Python.Json.{str, list, dict, nil, cons, end, field}
use seemsim_esim_gateway.Providers.Base.{BaseEsimProvider}
use seemsim_esim_gateway.Sync.Merge.{update_esim}
use seemsim_esim_gateway.Sync.Order.{SyncResult, unchanged, sync_order}
use seemsim_esim_gateway.Sync.Fields.{is_terminal}
use seemsim_esim_gateway.Sync.Terminal.{stored_status, sync_order-terminal}
use seemsim_esim_gateway.Sync.History.{Audited, sync_order-Audited}
use seemsim_esim_gateway.Sync.Columns.{NoLoss, update_esim-NoLoss}
use seemsim_esim_gateway.Sync.TextColumns.{fresh_or_old, text-update_esim}
use seemsim_esim_gateway.Tests.Sample.{
  sample_runtime, accepting, order_with, world_with, esim_entry, sample_esim, value_of,
}

sync_order-terminal_example :
    stored_status "o1"
      (sync_order sample_runtime accepting
        (order_with "cancelled")
        "manual"
        (world_with "cancelled")).1
    ≡ some "cancelled"
unfolding is_terminal seemsim_esim_gateway.Db.Table.find_row
sync_order-terminal_example =
    sync_order-terminal sample_runtime accepting "manual" (order_with "cancelled")
      (world_with "cancelled") refl refl

-- The provider reports a status and no number of an eSIM.
abbrev reporting : BaseEsimProvider
reporting = record accepting {
  query_order_full = λ n order_no. ok (
      dict (field "esimList" (list (cons (dict (field "esimStatus" (str "IN_USE") end)) nil)) end));
}

abbrev synced : SyncResult
unfolding sync_order
synced =
    value_of
      (sync_order sample_runtime reporting (order_with "processing") "manual"
        (world_with "processing")).0
      (unchanged (order_with "failed"))

sync_order-Audited_example :
    Audited
      (order_with "processing")
      "manual"
      synced
      (world_with "processing")
      (sync_order sample_runtime reporting
        (order_with "processing")
        "manual"
        (world_with "processing")).1
unfolding synced seemsim_esim_gateway.Sync.Order.merge_query
    seemsim_esim_gateway.Db.Repositories.Orders.mutate seemsim_esim_gateway.Python.Json.get
    is_terminal seemsim_esim_gateway.Sync.Fields.map_status
    seemsim_esim_gateway.Python.Runtime.str_or_empty
    seemsim_esim_gateway.Db.Repositories.Orders.add_state_history
    seemsim_esim_gateway.Sync.Order.merge_all
sync_order-Audited_example =
    sync_order-Audited sample_runtime reporting "manual" (order_with "processing")
      (world_with "processing") refl

abbrev merged : Esim
unfolding update_esim
merged =
    value_of
      (update_esim sample_runtime accepting sample_esim esim_entry (world_with "processing")).0
      sample_esim

update_esim-NoLoss_example : NoLoss sample_esim merged
unfolding merged seemsim_esim_gateway.Db.Repositories.Esims.mutate
    seemsim_esim_gateway.Sync.Merge.lpa_update seemsim_esim_gateway.Python.Json.get
update_esim-NoLoss_example =
    update_esim-NoLoss sample_runtime accepting sample_esim esim_entry (world_with "processing")
      refl

text-update_esim_example : merged.text imsi ≡ fresh_or_old sample_runtime esim_entry "imsi" none
unfolding merged seemsim_esim_gateway.Db.Repositories.Esims.mutate
    seemsim_esim_gateway.Sync.Merge.lpa_update seemsim_esim_gateway.Python.Json.get
text-update_esim_example =
    text-update_esim sample_runtime accepting sample_esim esim_entry (world_with "processing") refl
      imsi "imsi" refl

abbrev synced_again : SyncResult
unfolding sync_order
synced_again =
    value_of (sync_order sample_runtime reporting synced.order "manual" (world_with "processing")).0
      (unchanged (order_with "failed"))

sync_order-Steady_example :
    Steady synced.order synced_again
      (world_with "processing")
      (sync_order sample_runtime reporting synced.order "manual" (world_with "processing")).1
unfolding synced synced_again seemsim_esim_gateway.Sync.Order.merge_query
    seemsim_esim_gateway.Db.Repositories.Orders.mutate seemsim_esim_gateway.Python.Json.get
    is_terminal seemsim_esim_gateway.Sync.Fields.map_status
    seemsim_esim_gateway.Python.Runtime.str_or_empty
    seemsim_esim_gateway.Db.Repositories.Orders.add_state_history
    seemsim_esim_gateway.Sync.Order.merge_all
sync_order-Steady_example =
    sync_order-Steady sample_runtime reporting (order_with "processing") "manual" "manual"
      (world_with "processing") (world_with "processing") synced synced_again refl refl refl
