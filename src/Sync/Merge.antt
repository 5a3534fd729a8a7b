-- ===== src/Sync/Merge.antt =====
-- `_merge_esim_record` of state_sync.py.
use seemsim_esim_gateway.Prelude.{ℕ, String, Option, none, some, List, [], ◌∷◌, if◌then◌else◌, ◌==◌}
use seemsim_esim_gateway.Python.Text.{starts_with, split}
use seemsim_esim_gateway.Python.Json.{Value, str, Object, get, truthy, ◌or◌}
use seemsim_esim_gateway.Python.Runtime.{Runtime, str_of, str_or_empty}
use seemsim_esim_gateway.Errors.{Exception, builtin}
use seemsim_esim_gateway.Models.Esim.{
  Esim, TextColumn, provider_esim_tran_no, imsi, msisdn, smdp_address, matching_id, activation_code,
  qr_code_url, short_url, smdp_status, esim_status, pin, puk, apn, duration_unit, fup_policy,
  total_volume, total_duration, order_usage, support_topup_type, activate_time, installation_time,
  expired_time,
}
use seemsim_esim_gateway.Models.{ProviderOrder}
use seemsim_esim_gateway.Exec.{Result, ok, err, lift, pure, ◌>>=◌, ◌>>◌}
use seemsim_esim_gateway.Db.{M, uuid4, utc_now}
use seemsim_esim_gateway.Db.Repositories.Esims
use seemsim_esim_gateway.Providers.Base.{BaseEsimProvider}
use seemsim_esim_gateway.Sync.Fields.{
  map_status, is_terminal, set_if_present, set_int_if_present, set_time_or_keep,
}

-- The columns that are copied from the record, with the names of its fields.
abbrev pub profile_columns : List (TextColumn × String)
profile_columns =
    (provider_esim_tran_no, "esimTranNo")
    ∷ (imsi, "imsi")
    ∷ (msisdn, "msisdn")
    ∷ (activation_code, "ac")
    ∷ (qr_code_url, "qrCodeUrl")
    ∷ (short_url, "shortUrl")
    ∷ (smdp_status, "smdpStatus")
    ∷ (pin, "pin")
    ∷ (puk, "puk")
    ∷ (apn, "apn")
    ∷ (fup_policy, "fupPolicy")
    ∷ (duration_unit, "durationUnit")
    ∷ (esim_status, "esimStatus")
    ∷ []

unfoldable pub set_columns : Runtime → Object → List (TextColumn × String) → Esim → Esim
set_columns rt entry [] esim = esim
set_columns rt entry ((column, name) ∷ rest) esim =
    set_columns rt entry rest (set_if_present rt column (get entry name) esim)

unfoldable pub set_profile : Runtime → Object → Esim → Esim
unfolding set_columns
set_profile rt entry esim = set_columns rt entry profile_columns esim

-- The address and the matching identifier of a split activation code, if it has three parts.
unfoldable pub set_parts : Runtime → List String → Esim → Esim
set_parts rt (_ ∷ address ∷ matching ∷ _) esim =
    set_if_present rt matching_id (str matching) (set_if_present rt smdp_address (str address) esim)
set_parts rt _ esim = esim

abbrev pub no_startswith : Exception
no_startswith = builtin "AttributeError" "object has no attribute 'startswith'"

-- The parsing of the activation code `ac`; a truthy value that is no text has no `startswith`.
unfoldable pub lpa_update : Runtime → Value → Esim → Result Esim
unfolding set_parts
lpa_update rt (str ac) esim =
    ok (if starts_with ac "LPA:" then set_parts rt (split b'$' ac) esim else esim)
lpa_update rt ac esim = if truthy ac then err no_startswith else ok esim

unfoldable pub set_measures : Runtime → Object → Esim → Esim
set_measures rt entry esim =
    let e₁ = set_int_if_present total_volume (get entry "totalVolume") esim in
    let e₂ = set_int_if_present total_duration (get entry "totalDuration") e₁ in
    let e₃ = set_int_if_present order_usage (get entry "orderUsage") e₂ in
    let e₄ = set_int_if_present support_topup_type (get entry "supportTopUpType") e₃ in
    let e₅ = set_time_or_keep rt activate_time (get entry "activateTime") e₄ in
    let e₆ = set_time_or_keep rt installation_time (get entry "installationTime") e₅ in
    set_time_or_keep rt expired_time (get entry "expiredTime") e₆

-- The internal status after a record with this raw status.
unfoldable pub status_after : String → String → String
status_after old_status raw =
    if raw == "" then old_status else if is_terminal old_status then old_status else map_status raw

-- The status and the raw payload.
unfoldable pub set_status : Runtime → Object → Esim → Esim
unfolding status_after
set_status rt entry esim = record esim {
  status = status_after esim.status (str_or_empty rt (get entry "esimStatus"));
  raw_provider_payload = some entry;
  raw_provider_data = some entry;
}

abbrev new_esim : String → String → String → String → ℕ → Esim
new_esim id iccid provider_name order_id now = record {
  id = id;
  iccid = iccid;
  provider_name = provider_name;
  order_id = order_id;
  status = "allocated";
  text = λ _. none;
  number = λ _. none;
  time = λ _. none;
  raw_provider_data = none;
  raw_provider_payload = none;
  created_at = now;
}

module _ (rt : Runtime) (provider : BaseEsimProvider) where
  -- A new eSIM of this number, if none was found.
  unfoldable pub create_unless : ProviderOrder → String → Option Esim → M Esim
  create_unless order iccid (some esim) = pure esim
  create_unless order iccid none = do
    id ← uuid4 rt
    now ← utc_now rt
    Esims.create (new_esim id iccid provider.provider_name order.id now)

  -- The eSIM of this number, which is created if there is none.
  unfoldable pub get_or_create : ProviderOrder → String → M Esim
  unfolding create_unless
  get_or_create order iccid = do found ← Esims.get_by_iccid iccid; create_unless order iccid found

  -- The audit row of a change of status.
  unfoldable pub record_change : Esim → String → String → M (Unit {0})
  record_change esim new_status source = if esim.status == new_status then pure tt else do
    id ← uuid4 rt
    now ← utc_now rt
    Esims.add_status_history (record {
      id = id;
      esim_id = esim.id;
      iccid = esim.iccid;
      previous_status = some esim.status;
      new_status = new_status;
      source = source;
      recorded_at = now;
    })
    pure tt

  -- The updates of the object: an `ac` that has no `startswith` ends them after the text columns.
  unfoldable pub update_esim : Esim → Object → M Esim
  update_esim esim entry = do
    let profiled = set_profile rt entry esim
    Esims.mutate esim.id (λ _. profiled)
    addressed ← lift (lpa_update rt (get entry "ac" or str "") profiled)
    let merged = set_status rt entry (set_measures rt entry addressed)
    Esims.mutate esim.id (λ _. merged)
    pure merged

  -- `_merge_esim_record`
  unfoldable pub merge_esim_record : ProviderOrder → Object → String → M Esim
  unfolding get_or_create update_esim record_change
  merge_esim_record order entry source = do
    esim ← get_or_create order (str_of rt (get entry "iccid"))
    merged ← update_esim esim entry
    record_change esim merged.status source
    pure merged
