-- ===== src/Services/Esims.antt =====
-- app/services/esim.py: `EsimService`.
use seemsim_esim_gateway.Prelude.{String, Option, none, some, List, if◌then◌else◌, ◌==◌}
use Prim.Native.String.{◌++◌ as append}
use seemsim_esim_gateway.Python.Runtime.{Runtime}
use seemsim_esim_gateway.Errors.{new_error, resource_not_found_error}
use seemsim_esim_gateway.Models.Esim.{Esim, EsimStatusHistory}
use seemsim_esim_gateway.Exec.{raise, pure, ◌>>=◌, ◌>>◌}
use seemsim_esim_gateway.Db.{M, uuid4, utc_now, call}
use seemsim_esim_gateway.Db.Repositories.Esims
use seemsim_esim_gateway.Providers.Base.{BaseEsimProvider, ProviderEsimStatus}

abbrev pub or_not_found : String → Option Esim → M Esim
or_not_found detail none = raise (new_error resource_not_found_error detail)
or_not_found detail (some esim) = pure esim

-- `get_esim`
unfoldable pub get_esim : String → M Esim
get_esim esim_id = do
  esim ← Esims.get_by_id esim_id
  or_not_found (append "eSIM " (append esim_id " not found")) esim

-- `get_esim_by_iccid`
unfoldable pub get_esim_by_iccid : String → M Esim
get_esim_by_iccid iccid = do
  esim ← Esims.get_by_iccid iccid
  or_not_found (append "eSIM with ICCID " (append iccid " not found")) esim

-- `get_status_history`
unfoldable pub get_status_history : String → M (List EsimStatusHistory)
unfolding get_esim
get_status_history esim_id = do get_esim esim_id; Esims.get_status_history esim_id

module _ (rt : Runtime) (provider : BaseEsimProvider) where
  -- `if provider_status.status != esim.status:` and its block.
  unfoldable pub store_status : Esim → String → M (Unit {0})
  store_status esim status = if status == esim.status then pure tt else do
    Esims.mutate esim.id (λ e. record e { status = status })
    id ← uuid4 rt
    now ← utc_now rt
    Esims.add_status_history (record {
      id = id;
      esim_id = esim.id;
      iccid = esim.iccid;
      previous_status = some esim.status;
      new_status = status;
      source = "status_refresh";
      recorded_at = now;
    })
    pure tt

  -- `get_esim_status`
  unfoldable pub get_esim_status : String → M ProviderEsimStatus
  unfolding get_esim store_status
  get_esim_status esim_id = do
    esim ← get_esim esim_id
    status ← call (λ n. provider.get_esim_status n esim.iccid)
    store_status esim status.status
    pure status
