-- ===== src/Providers/EsimAccess/Client/Outcomes.antt =====
-- Which responses of the provider are a success, and the errors of the others.
use seemsim_esim_gateway.Prelude.{
  ℕ, String, Bool, true, false, not, ◌&&◌, ◌||◌, some, ◌==◌, nat_eq, ltb, ◌≡◌, arith,
}
use seemsim_esim_gateway.Python.Json.{dict, Object, find, get}
use seemsim_esim_gateway.Python.Runtime.{Runtime, str_or_empty}
use seemsim_esim_gateway.Exec.{Result, ok, err}
use seemsim_esim_gateway.Providers.EsimAccess.Auth.{response}
use seemsim_esim_gateway.Providers.EsimAccess.Client.{is_true, read_outcome, handle_response}

abbrev pub is_ok : {A : Type 0} → Result A → Bool
is_ok (ok a) = true
is_ok (err e) = false

-- The client accepts a response with a JSON object exactly if the HTTP status is below 500 and
-- neither 401 nor 429, and the object has the success flag true or the error code 0.
pub read_outcome-accepts :
    (rt : Runtime) (path : String) (status : ℕ) (o : Object)
    → is_ok (read_outcome rt path (response status (some (dict o)))) ≡ (
        ltb status 500
        && not (nat_eq status 401)
        && not (nat_eq status 429)
        && (is_true (find o "success") || str_or_empty rt (get o "errorCode") == "0"))
unfolding read_outcome handle_response
read_outcome-accepts rt path status o = ground arith
