-- ===== src/App/Startup.antt =====
-- The start of the application: `_validate_startup_config` of app/main.py, over the registry of
-- app/core/auth.py.
use seemsim_esim_gateway.Prelude.{
  ℕ, String, Bool, List, [], ◌∷◌, ◌++◌, Option, if◌then◌else◌, ◌==◌, nat_eq,
}
use seemsim_esim_gateway.Python.Json.{Value}
use seemsim_esim_gateway.Exec.{Exec, pure, ◌>>=◌}
use seemsim_esim_gateway.Auth.{Registry, client_count, get_client_registry}

-- The settings that are looked at.
pub record Credentials : Type 0 where
  pub esim_access_access_code : String
  pub esim_access_secret_key : String
  pub internal_service_clients : String

-- What is logged, with its level.
pub data Entry : Type 0 where
  error warning : String → Entry
  info : String → ℕ → Entry

-- `Settings.is_production`
abbrev pub is_production : String → Bool
is_production app_env = app_env == "production"

-- `_validate_startup_config`
unfoldable pub validate_startup_config :
    (String → Option Value) → Credentials → Exec (Option Registry) (List Entry)
validate_startup_config loads settings = do
  registry ← get_client_registry loads settings.internal_service_clients
  pure (
      (if settings.esim_access_access_code == ""
        then error "CRITICAL_CONFIG_MISSING: esim_access_access_code is empty" ∷ []
        else [])
      ++ (if settings.esim_access_secret_key == ""
          then error "CRITICAL_CONFIG_MISSING: esim_access_secret_key is empty" ∷ []
          else [])
      ++ (if nat_eq (client_count registry) 0
          then warning "NO_SERVICE_CLIENTS_CONFIGURED" ∷ []
          else info "service_clients_ready" (client_count registry) ∷ []))
