-- ===== src/Providers/EsimAccess/Answers.antt =====
-- What adapter.py makes of the answers of the provider.
use seemsim_esim_gateway.Prelude.{ℕ, String, Option, none, some, List, [], ◌∷◌, if◌then◌else◌}
use seemsim_esim_gateway.Prelude.Int.{ℤ, pos, ◌-ℤ◌}
use seemsim_esim_gateway.Python.Json.{
  Value, int, str, list, dict, Array, nil, cons, Object, end, field, get, get_or, truthy, ◌or◌,
}
use seemsim_esim_gateway.Python.Number.{int_of}
use seemsim_esim_gateway.Python.Runtime.{Runtime}
use seemsim_esim_gateway.Errors.{builtin}
use seemsim_esim_gateway.Exec.{Result, ok, err}
use seemsim_esim_gateway.Providers.Base.{
  ProviderPackageData, ProviderOrderResult, ProviderEsimProfile, ProviderEsimStatus,
}
use seemsim_esim_gateway.Providers.EsimAccess.Normalize.{
  ◌>>=◌, as_text, required_text, require_dict, effective_status, map_esim_to_order_result,
  map_package,
}

-- `data.get("obj") or {}`, used as a dict.
abbrev pub obj_of : Object → Result Object
obj_of answer = require_dict (get answer "obj" or dict end)

-- `esim_list[0]`, `none` if the list is empty; the record must be a dict.
abbrev pub first_record : Value → Result (Option Object)
first_record (list (cons v _)) = require_dict v >>= λ o. ok (some o)
first_record v =
    if truthy v then err (builtin "AttributeError" "object has no attribute 'get'") else ok none

abbrev pub pager : ℕ → Value
pager size = dict (field "pageNum" (int (pos 1)) (field "pageSize" (int (pos size)) end))

unfoldable pub map_packages : Runtime → Array → Result (List ProviderPackageData)
map_packages rt nil = ok []
map_packages rt (cons v rest) =
    let others = map_packages rt rest in
    do pkg ← require_dict v; mapped ← map_package rt pkg; ds ← others; ok (mapped ∷ ds)

-- `packages_raw` where it is a list.
abbrev pub array_or_empty : Value → Array
array_or_empty (list a) = a
array_or_empty _ = nil

unfoldable pub profile_of : Runtime → String → Option Object → Result ProviderEsimProfile
profile_of rt iccid none = ok (record {
  iccid = iccid;
  smdp_address = none;
  matching_id = none;
  activation_code = none;
  status = "unknown";
  msisdn = none;
  raw = end;
})
profile_of rt iccid (some entry) = do
  number ← required_text (get_or entry "iccid" (str iccid))
  smdp_address ← as_text (get entry "smdpAddress")
  matching_id ← as_text (get entry "matchingId")
  activation_code ← as_text (get entry "ac")
  msisdn ← as_text (get entry "msisdn")
  ok (record {
    iccid = number;
    smdp_address = smdp_address;
    matching_id = matching_id;
    activation_code = activation_code;
    status = effective_status rt entry;
    msisdn = msisdn;
    raw = entry;
  })

unfoldable pub difference : Option ℤ → Option ℤ → Option ℤ
difference (some a) (some b) = some (a -ℤ b)
difference _ _ = none

-- The remaining volume; both fields must be there and be numbers.
unfoldable pub remaining : Value → Value → Option ℤ
unfolding difference
remaining total_volume order_usage = difference (int_of total_volume) (int_of order_usage)

unfoldable pub status_of : Runtime → String → Option Object → ProviderEsimStatus
unfolding remaining
status_of rt iccid none = record {
  iccid = iccid;
  status = "unknown";
  data_usage_remaining_bytes = none;
  days_remaining = none;
  raw = end;
}
status_of rt iccid (some entry) = record {
  iccid = iccid;
  status = effective_status rt entry;
  data_usage_remaining_bytes = remaining (get entry "totalVolume") (get entry "orderUsage");
  days_remaining = none;
  raw = entry;
}

unfoldable pub order_result_of : Runtime → String → Option Object → Result ProviderOrderResult
order_result_of rt order_no none = ok (record {
  order_no = some order_no;
  transaction_id = "";
  status = "unknown";
  iccid = none;
  raw = end;
})
order_result_of rt order_no (some entry) = map_esim_to_order_result rt entry order_no

unfoldable pub balance_of : Option ℤ → ℤ
balance_of none = pos 0
balance_of (some n) = n
