-- ===== src/Api/Esims.antt =====
-- app/api/v1/esims.py.
use seemsim_esim_gateway.Prelude.{String, List, map}
use seemsim_esim_gateway.Python.Runtime.{Runtime}
use seemsim_esim_gateway.Exec.{pure, ◌>>=◌}
use seemsim_esim_gateway.Db.{M, utc_now}
use seemsim_esim_gateway.Providers.Base.{BaseEsimProvider}
use seemsim_esim_gateway.Services.Esims
use seemsim_esim_gateway.Schemas.{ApiResponse, api_response}
use seemsim_esim_gateway.Schemas.Esim.{
  EsimOut, esim_out, EsimStatusOut, EsimStatusHistoryOut, history_out,
}

-- `get_esim`
unfoldable pub get_esim : String → M (ApiResponse EsimOut)
get_esim esim_id = do esim ← Esims.get_esim esim_id; pure (api_response (esim_out esim))

-- `get_esim_status`
unfoldable pub get_esim_status : Runtime → BaseEsimProvider → String → M (ApiResponse EsimStatusOut)
get_esim_status rt provider esim_id = do
  status ← Esims.get_esim_status rt provider esim_id
  now ← utc_now rt
  pure (
      api_response (record {
        iccid = status.iccid;
        status = status.status;
        data_usage_remaining_bytes = status.data_usage_remaining_bytes;
        days_remaining = status.days_remaining;
        last_updated = now;
      }))

-- `get_esim_history`
unfoldable pub get_esim_history : String → M (ApiResponse (List EsimStatusHistoryOut))
get_esim_history esim_id = do
  history ← Esims.get_status_history esim_id
  pure (api_response (map history_out history))
