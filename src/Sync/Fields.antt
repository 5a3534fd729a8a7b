-- ===== src/Sync/Fields.antt =====
-- The status map and the helpers of state_sync.py that write one field.
use seemsim_esim_gateway.Prelude.{
  ℕ, String, Bool, Option, none, some, List, [], ◌∷◌, contains, if◌then◌else◌, ◌==◌,
}
use seemsim_esim_gateway.Prelude.Int.{ℤ}
use seemsim_esim_gateway.Python.Text.{replace}
use seemsim_esim_gateway.Python.Json.{Value, null, str}
use seemsim_esim_gateway.Python.Number.{int_of}
use seemsim_esim_gateway.Python.Runtime.{Runtime, str_of, is_present}
use seemsim_esim_gateway.Models.Esim.{
  Esim, TextColumn, NumberColumn, TimeColumn, set_text, set_number, set_time,
}

-- `ESIM_STATUS_MAP`
abbrev esim_status_map : List (String × String)
esim_status_map =
    ("GOT_RESOURCE", "ready")
    ∷ ("IN_USE", "active")
    ∷ ("USED_UP", "consumed")
    ∷ ("DELETED", "cancelled")
    ∷ []

-- `dict.get(k, default)` of a table of texts.
abbrev pub lookup_or : String → List (String × String) → String → String
lookup_or k [] default = default
lookup_or k ((j, v) ∷ table) default = if j == k then v else lookup_or k table default

-- `ProviderStateSyncer.map_status`
unfoldable pub map_status : String → String
map_status raw = lookup_or raw esim_status_map "unknown_provider_state"

-- `status in TERMINAL_STATUSES`
unfoldable pub is_terminal : String → Bool
is_terminal status = contains status ("consumed" ∷ "cancelled" ∷ "failed" ∷ [])

-- `_set_if_present`
unfoldable pub set_if_present : Runtime → TextColumn → Value → Esim → Esim
set_if_present rt column value esim =
    if is_present rt value then set_text column (some (str_of rt value)) esim else esim

assign_number : NumberColumn → Option ℤ → Esim → Esim
assign_number column none esim = esim
assign_number column (some n) esim = set_number column (some n) esim

-- `_set_int_if_present`
unfoldable pub set_int_if_present : NumberColumn → Value → Esim → Esim
unfolding assign_number
set_int_if_present column null esim = esim
set_int_if_present column value esim = assign_number column (int_of value) esim

-- `_parse_provider_dt`; a truthy value that is no text raises `AttributeError`, which is caught.
unfoldable pub parse_provider_dt : Runtime → Value → Option ℕ
parse_provider_dt rt (str s) =
    if s == ""
    then none
    else rt.fromisoformat (replace (replace s "+0000" "+00:00") "-0000" "+00:00")
parse_provider_dt rt _ = none

-- `_parse_provider_dt(value) or esim.column`
abbrev or_kept : Option ℕ → Option ℕ → Option ℕ
or_kept none kept = kept
or_kept (some t) kept = some t

unfoldable pub set_time_or_keep : Runtime → TimeColumn → Value → Esim → Esim
unfolding parse_provider_dt
set_time_or_keep rt column value esim =
    set_time column (or_kept (parse_provider_dt rt value) (esim.time column)) esim
