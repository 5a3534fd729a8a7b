-- ===== src/App/Wiring.antt =====
-- The objects that app/api/deps.py builds for a request, and `_build_provider` of
-- app/tasks/reconciliation.py for a job: the provider over its client, with the credentials of the
-- settings. The address and the time limit of the client belong to the transport.
use seemsim_esim_gateway.Python.Runtime.{Runtime}
use seemsim_esim_gateway.Providers.Base.{BaseEsimProvider}
use seemsim_esim_gateway.Providers.EsimAccess.Auth.{EsimAccessAuth, Http}
use seemsim_esim_gateway.Providers.EsimAccess.Adapter.{esim_access_provider}
use seemsim_esim_gateway.App.Startup.{Credentials}

-- `get_esim_access_auth`
abbrev pub get_esim_access_auth : Credentials → EsimAccessAuth
get_esim_access_auth settings = record {
  access_code = settings.esim_access_access_code;
  secret_key = settings.esim_access_secret_key;
}

-- `get_esim_access_client` and `get_provider`
abbrev pub get_provider : Runtime → Http → Credentials → BaseEsimProvider
get_provider rt http settings = esim_access_provider rt http (get_esim_access_auth settings)

-- `_build_provider`
abbrev pub build_provider : Runtime → Http → Credentials → BaseEsimProvider
build_provider rt http settings = esim_access_provider rt http (get_esim_access_auth settings)
