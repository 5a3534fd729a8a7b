-- ===== src/Python/Json.antt =====
-- JSON values as Python holds them: `None`, `bool`, `int`, `str`, `list` and `dict`. A number with
-- a fraction has no constructor.
use seemsim_esim_gateway.Prelude.{
  String, Bool, true, false, not, Option, none, some, if◌then◌else◌, ◌==◌, nat_eq,
}
use seemsim_esim_gateway.Prelude.Int.{ℤ, pos, negsuc}

mutual
  pub data Value : Type 0 where
    null : Value
    bool : Bool → Value
    int : ℤ → Value
    str : String → Value
    list : Array → Value
    dict : Object → Value

  pub data Array : Type 0 where
    nil : Array
    cons : Value → Array → Array

  pub data Object : Type 0 where
    end : Object
    field : String → Value → Object → Object

-- `d[k]` where `k in d`.
unfoldable pub find : Object → String → Option Value
find end k = none
find (field j v o) k = if j == k then some v else find o k

-- `d.get(k, default)`
unfoldable pub get_or : Object → String → Value → Value
unfolding find
get_or o k default = elim (find o k) [ none ↦ default | some v ↦ v ]

-- `d.get(k)`
unfoldable pub get : Object → String → Value
unfolding get_or
get o k = get_or o k null

-- `bool(v)`
abbrev pub truthy : Value → Bool
truthy null = false
truthy (bool b) = b
truthy (int (pos n)) = not (nat_eq n 0)
truthy (int (negsuc n)) = true
truthy (str s) = not (s == "")
truthy (list nil) = false
truthy (list (cons _ _)) = true
truthy (dict end) = false
truthy (dict (field _ _ _)) = true

-- `a or b`
infixr 30 ◌or◌
abbrev pub ◌or◌ : Value → Value → Value
a or b = if truthy a then a else b

-- `Optional[str]` as a value, and the truth of one.
abbrev pub of_optional : Option String → Value
of_optional none = null
of_optional (some s) = str s
