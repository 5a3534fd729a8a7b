-- ===== src/Python/Number.antt =====
-- `int(v)` and `str(v)`.
use Prim.Native.String.{◌++◌ as append}
use seemsim_esim_gateway.Prelude.{
  ℕ, zero, suc, ◌+◌, ◌-◌, ◌*◌, ◌/◌, ◌%◌, String, Bool, true, false, ◌&&◌, List, [], ◌∷◌, Option,
  none, some, leb, ltb, nat_eq, if◌then◌else◌, ◌≡◌, refl,
}
use seemsim_esim_gateway.Prelude.Int.{ℤ, pos, negsuc, neg_ℕ}
use seemsim_esim_gateway.Python.Text.{codes, is_space}
use seemsim_esim_gateway.Python.Json.{Value, null, bool, int, str, list, dict}

-- Without the white space in front.
unfoldable pub lstrip : List ℕ → List ℕ
lstrip [] = []
lstrip (c ∷ cs) = let rest = lstrip cs in if is_space c then rest else c ∷ cs

all_space : List ℕ → Bool
all_space [] = true
all_space (c ∷ cs) = is_space c && all_space cs

-- Digits with single underscores between them, then white space alone. `after_digit` tells whether
-- a digit stands just before.
digits : ℕ → Bool → List ℕ → Option ℕ
unfolding all_space
digits acc after_digit [] = if after_digit then some acc else none
digits acc after_digit (c ∷ cs) =
    let more = digits (acc * 10 + (c - 48)) true cs in
    let gap = digits acc false cs in
    if leb 48 c && leb c 57
    then more
    else if after_digit && nat_eq c b'_'
    then gap
    else if after_digit && is_space c && all_space cs
    then some acc
    else none

negated : Option ℕ → Option ℤ
negated none = none
negated (some n) = some (neg_ℕ n)

positive : Option ℕ → Option ℤ
positive none = none
positive (some n) = some (pos n)

signed : List ℕ → Option ℤ
unfolding digits negated positive
signed [] = none
signed (c ∷ cs) =
    if nat_eq c b'-'
    then negated (digits 0 false cs)
    else if nat_eq c b'+'
    then positive (digits 0 false cs)
    else positive (digits 0 false (c ∷ cs))

-- `int(s)`, `none` where it raises `ValueError`.
unfoldable pub int_of_text : String → Option ℤ
unfolding signed lstrip
int_of_text s = signed (lstrip (codes s))

-- `int(v)`, `none` where it raises `ValueError` or `TypeError`.
unfoldable pub int_of : Value → Option ℤ
unfolding int_of_text
int_of null = none
int_of (bool b) = some (if b then pos 1 else pos 0)
int_of (int n) = some n
int_of (str s) = int_of_text s
int_of (list _) = none
int_of (dict _) = none

int_tests :
    (int_of_text " 12_0 " ≡ some (pos 120))
    × (int_of_text "-7" ≡ some (negsuc 6))
    × (int_of_text "1__0" ≡ none)
    × (int_of_text "1x" ≡ none)
unfolding int_of_text
int_tests = (refl, refl, refl, refl)

digit_text : ℕ → String
digit_text d =
    if nat_eq d 0
    then "0"
    else if nat_eq d 1
    then "1"
    else if nat_eq d 2
    then "2"
    else if nat_eq d 3
    then "3"
    else if nat_eq d 4
    then "4"
    else if nat_eq d 5
    then "5"
    else if nat_eq d 6
    then "6"
    else if nat_eq d 7
    then "7"
    else if nat_eq d 8
    then "8"
    else "9"

-- The decimal digits of n; the fuel n + 1 is more than the number of digits.
decimal : ℕ → ℕ → String
unfolding digit_text
decimal zero n = ""
decimal (suc fuel) n =
    let front = decimal fuel (n / 10) in
    if ltb n 10 then digit_text n else append front (digit_text (n % 10))

unfoldable pub text_of_int : ℤ → String
unfolding decimal
text_of_int (pos n) = decimal (n + 1) n
text_of_int (negsuc n) = append "-" (decimal (n + 2) (n + 1))

text_of_int_test : text_of_int (negsuc 419) ≡ "-420"
unfolding text_of_int
text_of_int_test = refl
