-- ===== src/Api/Health.antt =====
-- app/api/v1/health.py. Whether the database and Redis answer is given.
use Prim.Native.String.{◌++◌ as append}
use seemsim_esim_gateway.Prelude.{ℕ, String, ◌&&◌, none, some, [], ◌∷◌, if◌then◌else◌, ◌==◌}
use seemsim_esim_gateway.Errors.{message}
use seemsim_esim_gateway.Exec.{Result, ok, err}
use seemsim_esim_gateway.Schemas.{HealthResponse}

-- `liveness`
unfoldable pub liveness : String → ℕ → HealthResponse
liveness app_name now = record { status = "ok"; service = app_name; timestamp = now; checks = none }

-- What one `try` puts into `checks`.
abbrev pub check_of : Result (Unit {0}) → String
check_of (ok _) = "ok"
check_of (err exc) = append "error: " (message exc)

-- `readiness`, for the outcomes of `SELECT 1` and of `ping`.
unfoldable pub readiness : String → Result (Unit {0}) → Result (Unit {0}) → ℕ → HealthResponse
readiness app_name select_1 ping now = record {
  status = if check_of select_1 == "ok" && check_of ping == "ok" then "ok" else "degraded";
  service = app_name;
  timestamp = now;
  checks = some (("database", check_of select_1) ∷ ("redis", check_of ping) ∷ []);
}
