-- ===== src/Providers/EsimAccess/Normalize.antt =====
-- The pure parts of app/providers/esim_access/adapter.py: how records, packages and webhooks are
-- normalised. A field that must be a text column is refused at once if it is neither text nor
-- absent; the source lets it pass, and the database refuses the row.
use Prim.Native.String.{◌++◌ as append}
use seemsim_esim_gateway.Prelude.{
  ◌/◌, ◌*◌, String, true, false, ◌&&◌, Option, none, some, List, [], ◌∷◌, contains, if◌then◌else◌,
  ◌==◌, ltb,
}
use seemsim_esim_gateway.Prelude.Int.{ℤ, pos, negsuc}
use seemsim_esim_gateway.Python.Text.{lower, upper, split, has_text, strip}
use seemsim_esim_gateway.Python.Json.{
  Value, null, bool, int, str, dict, Object, end, get, get_or, truthy, ◌or◌,
}
use seemsim_esim_gateway.Python.Number.{int_of}
use seemsim_esim_gateway.Python.Runtime.{Runtime, str_of}
use seemsim_esim_gateway.Errors.{builtin}
use seemsim_esim_gateway.Exec.{Result, ok, err}
use seemsim_esim_gateway.Providers.Base.{
  ProviderPackageData, ProviderOrderResult, NormalizedWebhook,
}
use seemsim_esim_gateway.Sync.Fields.{lookup_or}

infixl 5 ◌>>=◌
abbrev pub ◌>>=◌ {ℓ κ} : {A : Type ℓ} {B : Type κ} → Result A → (A → Result B) → Result B
ok a >>= f = f a
err e >>= f = err e

abbrev pub as_text : Value → Result (Option String)
as_text null = ok none
as_text (str s) = ok (some s)
as_text _ = err (builtin "DataError" "expected str")

abbrev pub required_text : Value → Result String
required_text (str s) = ok s
required_text null = err (builtin "IntegrityError" "NOT NULL constraint failed")
required_text _ = err (builtin "DataError" "expected str")

abbrev pub require_dict : Value → Result Object
require_dict (dict o) = ok o
require_dict _ = err (builtin "AttributeError" "object has no attribute 'get'")

-- `_effective_status`
unfoldable pub effective_status : Runtime → Object → String
effective_status rt entry =
    let esim_status = lower (str_of rt (get_or entry "esimStatus" (str "unknown"))) in
    let smdp_status = upper (str_of rt (get_or entry "smdpStatus" (str ""))) in
    if smdp_status == "DELETED"
    then "deleted"
    else if smdp_status == "DISABLED"
    then "suspended"
    else if esim_status == "got_resource"
        && contains smdp_status ("RELEASED" ∷ "ENABLED" ∷ "DOWNLOAD" ∷ "INSTALLATION" ∷ [])
    then "installed"
    else esim_status

-- The `status_map` of `_map_esim_to_order_result`.
abbrev order_status_map : List (String × String)
order_status_map =
    ("got_resource", "completed")
    ∷ ("installed", "completed")
    ∷ ("in_use", "active")
    ∷ ("used_up", "expired")
    ∷ ("used_expired", "expired")
    ∷ ("unused_expired", "expired")
    ∷ ("deleted", "cancelled")
    ∷ ("cancel", "cancelled")
    ∷ ("revoked", "cancelled")
    ∷ ("suspended", "suspended")
    ∷ []

-- `status_map.get(effective, effective)`
unfoldable pub order_status_of : String → String
order_status_of effective = lookup_or effective order_status_map effective

-- `_map_esim_to_order_result`
unfoldable pub map_esim_to_order_result : Runtime → Object → String → Result ProviderOrderResult
unfolding order_status_of
map_esim_to_order_result rt entry fallback_order_no = do
  order_no ← as_text (get_or entry "orderNo" (str fallback_order_no))
  transaction_id ← required_text (get_or entry "transactionId" (str ""))
  iccid ← as_text (get entry "iccid")
  ok (record {
    order_no = order_no;
    transaction_id = transaction_id;
    status = order_status_of (effective_status rt entry);
    iccid = iccid;
    raw = entry;
  })

-- An `int`, as `isinstance(v, int)` sees it: a `bool` is one.
abbrev pub as_int : Value → Option ℤ
as_int (int n) = some n
as_int (bool true) = some (pos 1)
as_int (bool false) = some (pos 0)
as_int _ = none

abbrev int_or_zero : Option ℤ → ℤ
int_or_zero none = pos 0
int_or_zero (some n) = n

-- `int(volume_bytes / (1024 * 1024))` for a positive volume, below 2 ^ 53.
unfoldable pub megabytes : Option ℤ → Option ℤ
megabytes none = none
megabytes (some (pos n)) = if ltb 0 n then some (pos (n / (1024 * 1024))) else none
megabytes (some (negsuc n)) = none

strip_all : List String → List String
strip_all [] = []
strip_all (c ∷ cs) = if has_text c then strip c ∷ strip_all cs else strip_all cs

-- `[c.strip() for c in location.split(",") if c.strip()] if location else []`
unfoldable pub countries_of : Value → Result (List String)
unfolding strip_all
countries_of (str s) = ok (if s == "" then [] else strip_all (split b',' s))
countries_of v =
    if truthy v then err (builtin "AttributeError" "object has no attribute 'split'") else ok []

-- `_map_package`
unfoldable pub map_package : Runtime → Object → Result ProviderPackageData
unfolding megabytes countries_of
map_package rt pkg = do
  countries ← countries_of (get_or pkg "location" (str ""))
  package_code ← required_text (get_or pkg "packageCode" (str ""))
  name ← required_text (get_or pkg "name" (str ""))
  currency ← required_text (get_or pkg "currencyCode" (str "USD"))
  location_code ← as_text (get pkg "locationCode")
  ok (record {
    package_code = package_code;
    name = name;
    type = str_of rt (get_or pkg "activeType" (str ""));
    data_volume_mb = megabytes (as_int (get_or pkg "volume" (int (pos 0))));
    duration_days = int_of (get pkg "duration");
    price = int_or_zero (as_int (get_or pkg "price" (int (pos 0))));
    currency = currency;
    countries = countries;
    location_code = location_code;
    raw = pkg;
  })

-- The status that a `result` field stands for.
abbrev result_status : Value → String
result_status (str s) =
    if s == "COMPLETED" then "completed" else if s == "FAILED" then "failed" else "unknown"
result_status _ = "unknown"

-- `f"smdp_{smdp_status.lower()}"` where the field is given.
abbrev smdp_status_or : Option String → String → String
smdp_status_or none default = default
smdp_status_or (some s) default = if s == "" then default else append "smdp_" (lower s)

-- The chain of tests that ends in `status`.
unfoldable pub webhook_status : Runtime → String → Value → Option String → Value → String
webhook_status rt notify_type esim_status smdp_status result_value =
    if notify_type == "ESIM_STATUS" && truthy esim_status
    then lower (str_of rt esim_status)
    else if notify_type == "ORDER_STATUS" && truthy esim_status
    then lower (str_of rt esim_status)
    else if notify_type == "SMDP_EVENT"
    then smdp_status_or smdp_status (result_status result_value)
    else result_status result_value

-- `handle_webhook`
unfoldable pub handle_webhook : Runtime → Object → Result NormalizedWebhook
unfolding webhook_status
handle_webhook rt payload = do
  content ← require_dict (get payload "content" or dict end)
  event_type ← required_text (get_or payload "notifyType" (str "ORDER_STATUS"))
  order_no ← as_text (get content "orderNo" or get payload "orderNo")
  iccid ←
      as_text
        (get content "iccid" or get content "ICCID" or get payload "ICCID" or get payload "iccid")
  transaction_id ← as_text (get content "transactionId" or get payload "transactionId")
  smdp_status ← as_text (get content "smdpStatus")
  let esim_status = get content "esimStatus" or get content "orderStatus"
  let result_value = get content "result" or get_or payload "result" (str "")
  ok (record {
    event_type = event_type;
    order_no = order_no;
    iccid = iccid;
    transaction_id = transaction_id;
    esim_status = if truthy esim_status then some (lower (str_of rt esim_status)) else none;
    smdp_status = smdp_status;
    lpa = get content "lpa" or get payload "lpa";
    package_code = get content "packageCode" or get payload "packageCode";
    package_name = get content "packageName" or get payload "packageName";
    price = get content "price" or get payload "price";
    currency = get content "currency" or get payload "currency";
    status = webhook_status rt event_type esim_status smdp_status result_value;
    total_volume = get content "totalVolume";
    order_usage = get content "orderUsage";
    remain = get content "remain";
    remain_threshold = get content "remainThreshold";
    duration_unit = get content "durationUnit";
    expired_time = get content "expiredTime";
    total_duration = get content "totalDuration";
    raw = payload;
  })
