-- ===== src/Python/Runtime.antt =====
-- What a process takes from Python's runtime and does not compute itself. Identifiers and clock
-- readings are streams, read by position: nothing is assumed of them unless a theorem says so.
use Prim.Native.String.{◌++◌ as append}
use seemsim_esim_gateway.Prelude.{ℕ, String, Bool, false, Option, none, some, if◌then◌else◌}
use seemsim_esim_gateway.Python.Text.{has_text}
use seemsim_esim_gateway.Python.Json.{Value, null, bool, int, str, list, dict, truthy}
use seemsim_esim_gateway.Python.Number.{text_of_int, int_of}
use seemsim_esim_gateway.Prelude.Int.{ℤ}
use seemsim_esim_gateway.Errors.{Exception, builtin}
use seemsim_esim_gateway.Exec.{Result, ok, err}

pub record Runtime : Type 0 where
  -- `repr(v)`, which is also `str(v)` of a list or a dict
  pub repr : Value → String
  -- `datetime.fromisoformat(s)` as an instant, `none` where it raises `ValueError`
  pub fromisoformat : String → Option ℕ
  -- `str(uuid.uuid4())`, the n-th that is drawn
  pub uuid4 : ℕ → String
  -- `datetime.now(UTC)`, the n-th reading
  pub utc_now : ℕ → ℕ

-- `str(v)`
unfoldable pub str_of : Runtime → Value → String
unfolding text_of_int
str_of rt null = "None"
str_of rt (bool b) = if b then "True" else "False"
str_of rt (int n) = text_of_int n
str_of rt (str s) = s
str_of rt (list a) = rt.repr (list a)
str_of rt (dict o) = rt.repr (dict o)

-- `str(v or "")`
unfoldable pub str_or_empty : Runtime → Value → String
unfolding str_of
str_or_empty rt v = if truthy v then str_of rt v else ""

-- `value is not None and str(value).strip()`
unfoldable pub is_present : Runtime → Value → Bool
unfolding str_of has_text
is_present rt null = false
is_present rt v = has_text (str_of rt v)

-- What `int` raises for a value of another type.
abbrev not_a_number : String → Exception
not_a_number name = builtin "TypeError" (
    append "int() argument must be a string, a bytes-like object or a real number, not '"
      (append name "'"))

-- `int(v)` where nothing catches what it raises.
unfoldable pub int_or_raise : Runtime → Value → Result ℤ
int_or_raise rt null = err (not_a_number "NoneType")
int_or_raise rt (list a) = err (not_a_number "list")
int_or_raise rt (dict o) = err (not_a_number "dict")
int_or_raise rt v = elim (int_of v) [
  | some n ↦ ok n
  | none ↦
      err (builtin "ValueError" (append "invalid literal for int() with base 10: " (rt.repr v)))
]
