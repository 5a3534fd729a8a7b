-- ===== src/Providers/Defaults.antt =====
-- The bodies that app/providers/base.py gives to a provider which does not override them.
use seemsim_esim_gateway.Prelude.{ℕ, String, if◌then◌else◌}
use seemsim_esim_gateway.Python.Json.{Value, str, list, dict, nil, cons, end, field, truthy}
use seemsim_esim_gateway.Errors.{new_error, provider_capability_unavailable_error}
use seemsim_esim_gateway.Exec.{Result, ok, err}
use seemsim_esim_gateway.Providers.Base.{ProviderOrderResult, ProviderBalance}

-- `get_balance`
abbrev pub get_balance : ℕ → Result ProviderBalance
get_balance n = err (new_error provider_capability_unavailable_error "Balance query not supported")

-- `query_order_full`, over the provider's `get_order_status`.
unfoldable pub query_order_full :
    (ℕ → String → Result ProviderOrderResult) → ℕ → String → Result Value
query_order_full get_order_status n order_no = elim (get_order_status n order_no) [
  | err e ↦ err e
  | ok result ↦
      let records = if truthy (dict result.raw) then cons (dict result.raw) nil else nil in
      ok (dict (field "esimList" (list records) (field "orderNo" (str order_no) end)))
]
