-- ===== src/Webhook/Handlers.antt =====
-- The handlers of webhook.py, one for each type of event.
use Prim.Native.String.{◌++◌ as append}
use seemsim_esim_gateway.Prelude.{ℕ, String, not, ◌&&◌, Option, none, some, if◌then◌else◌, ◌==◌}
use seemsim_esim_gateway.Python.Text.{upper, replace}
use seemsim_esim_gateway.Python.Json.{Value, null, str}
use seemsim_esim_gateway.Python.Runtime.{Runtime, int_or_raise}
use seemsim_esim_gateway.Models.{ProviderOrder}
use seemsim_esim_gateway.Models.Esim.{
  Esim, NumberColumn, esim_status, smdp_status, total_volume, order_usage, expired_time, set_text,
  set_number, set_time,
}
use seemsim_esim_gateway.Exec.{lift, pure, ◌>>=◌, ◌>>◌}
use seemsim_esim_gateway.Db.{M, uuid4, utc_now}
use seemsim_esim_gateway.Db.Repositories.Orders
use seemsim_esim_gateway.Db.Repositories.Orders.{column_is}
use seemsim_esim_gateway.Db.Repositories.Esims
use seemsim_esim_gateway.Providers.Base.{NormalizedWebhook}
use seemsim_esim_gateway.Sync.Order.{is_blank}

-- The code that runs when a lookup found a row; it does nothing otherwise.
abbrev pub when_found : {A : Type 0} → Option A → (A → M (Unit {0})) → M (Unit {0})
when_found none f = pure tt
when_found (some a) f = f a

-- `if not key: return`, then the code for the key.
abbrev pub when_given : Option String → (String → M (Unit {0})) → M (Unit {0})
when_given none f = pure tt
when_given (some s) f = if s == "" then pure tt else f s

-- `if iccid and not order.iccid: order.iccid = iccid`
unfoldable pub iccid_if_missing : Option String → Option String → Option String
iccid_if_missing old new = if not (is_blank new) && is_blank old then new else old

-- The assignments of `_handle_order_status`.
abbrev pub with_order_status : NormalizedWebhook → ProviderOrder → ProviderOrder
with_order_status d o = record o { status = d.status; iccid = iccid_if_missing o.iccid d.iccid }

-- `_handle_order_status`
unfoldable pub handle_order_status : NormalizedWebhook → M (Unit {0})
unfolding iccid_if_missing
handle_order_status d = when_given d.order_no λ order_no. do
  found ← Orders.get_by_provider_order_no order_no
  when_found found λ order. Orders.mutate order.id (with_order_status d)

-- `if new_esim_status and new_esim_status.upper() != (esim.esim_status or ""): …`; an equal value
-- is written without effect.
abbrev set_esim_status : Option String → Esim → Esim
set_esim_status none esim = esim
set_esim_status (some s) esim = if s == "" then esim else set_text esim_status (some (upper s)) esim

-- `if new_smdp and new_smdp != esim.smdp_status: …`
abbrev set_smdp_status : Option String → Esim → Esim
set_smdp_status none esim = esim
set_smdp_status (some s) esim = if s == "" then esim else set_text smdp_status (some s) esim

module _ (rt : Runtime) where
  unfoldable pub add_history : Esim → Option String → String → String → M (Unit {0})
  add_history esim previous new_status source = do
    id ← uuid4 rt
    now ← utc_now rt
    Esims.add_status_history (record {
      id = id;
      esim_id = esim.id;
      iccid = esim.iccid;
      previous_status = previous;
      new_status = new_status;
      source = source;
      recorded_at = now;
    })
    pure tt

  -- The assignments of `_handle_esim_status`, and the audit row of a change.
  unfoldable pub update_status : NormalizedWebhook → Esim → M (Unit {0})
  unfolding add_history
  update_status d esim = do
    Esims.mutate esim.id (λ e.
        record (set_smdp_status d.smdp_status (set_esim_status d.esim_status e)) {
          status = d.status;
        })
    if d.status == esim.status
        then pure tt
        else add_history esim (some esim.status) d.status "webhook"

  -- `_handle_esim_status`
  unfoldable pub handle_esim_status : NormalizedWebhook → M (Unit {0})
  unfolding update_status
  handle_esim_status d =
      when_given d.iccid
        λ iccid. do found ← Esims.get_by_iccid iccid; when_found found (update_status d)

  -- `if new_smdp and new_smdp != esim.smdp_status:` and its block.
  unfoldable pub update_smdp : Option String → Esim → M (Unit {0})
  unfolding add_history
  update_smdp new_smdp esim = when_given new_smdp λ s.
      if column_is (esim.text smdp_status) s then pure tt else do
        Esims.mutate esim.id (set_text smdp_status (some s))
        add_history esim (esim.text smdp_status) (append "smdp:" s) "webhook_smdp"

  -- `_handle_smdp_event`
  unfoldable pub handle_smdp_event : NormalizedWebhook → M (Unit {0})
  unfolding update_smdp
  handle_smdp_event d =
      when_given d.iccid
        λ iccid. do found ← Esims.get_by_iccid iccid; when_found found (update_smdp d.smdp_status)

  -- `if value is not None: esim.column = int(value)`
  unfoldable pub assign_int : String → NumberColumn → Value → M (Unit {0})
  assign_int esim_id column null = pure tt
  assign_int esim_id column v = do
    n ← lift (int_or_raise rt v)
    Esims.mutate esim_id (set_number column (some n))

  -- `_handle_data_usage`
  unfoldable pub handle_data_usage : NormalizedWebhook → M (Unit {0})
  unfolding assign_int
  handle_data_usage d = when_given d.iccid λ iccid. do
    found ← Esims.get_by_iccid iccid
    when_found found λ esim. do
      assign_int esim.id total_volume d.total_volume
      assign_int esim.id order_usage d.order_usage

  -- `datetime.fromisoformat(expired_time.replace("Z", "+00:00"))`, `none` where it raises.
  unfoldable pub parse_expiry : Value → Option ℕ
  parse_expiry (str s) = if s == "" then none else rt.fromisoformat (replace s "Z" "+00:00")
  parse_expiry _ = none

  unfoldable pub assign_expiry : String → Option ℕ → M (Unit {0})
  assign_expiry esim_id none = pure tt
  assign_expiry esim_id (some t) = Esims.mutate esim_id (set_time expired_time (some t))

  -- `_handle_validity_usage`
  unfoldable pub handle_validity_usage : NormalizedWebhook → M (Unit {0})
  unfolding parse_expiry assign_expiry
  handle_validity_usage d = when_given d.iccid λ iccid. do
    found ← Esims.get_by_iccid iccid
    when_found found λ esim. assign_expiry esim.id (parse_expiry d.expired_time)

  -- `_handle_event`
  unfoldable pub handle_event : NormalizedWebhook → M (Unit {0})
  handle_event d =
      if d.event_type == "ORDER_STATUS"
      then handle_order_status d
      else if d.event_type == "ESIM_STATUS"
      then handle_esim_status d
      else if d.event_type == "SMDP_EVENT"
      then handle_smdp_event d
      else if d.event_type == "DATA_USAGE"
      then handle_data_usage d
      else if d.event_type == "VALIDITY_USAGE"
      then handle_validity_usage d
      else pure tt
