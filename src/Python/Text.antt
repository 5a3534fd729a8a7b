-- ===== src/Python/Text.antt =====
-- `str` methods over ASCII texts: `lower`, `upper`, the test of `strip`, `split` on one character,
-- `startswith` and `replace`. A character outside ASCII has no case here and is no white space.
use Prim.Native.Char.{Char, code}
use Prim.Native.String.{◌++◌ as append}
use seemsim_esim_gateway.Prelude.{
  ℕ, ◌-◌, zero, suc, String, Bool, true, false, not, ◌&&◌, ◌||◌, List, [], ◌∷◌, Option, none, some,
  leb, nat_eq, if◌then◌else◌, ◌≡◌, refl,
}

-- The upper and lower letters, side by side.
abbrev letters : List (Char × Char)
letters =
    ("A", "a")
    ∷ ("B", "b")
    ∷ ("C", "c")
    ∷ ("D", "d")
    ∷ ("E", "e")
    ∷ ("F", "f")
    ∷ ("G", "g")
    ∷ ("H", "h")
    ∷ ("I", "i")
    ∷ ("J", "j")
    ∷ ("K", "k")
    ∷ ("L", "l")
    ∷ ("M", "m")
    ∷ ("N", "n")
    ∷ ("O", "o")
    ∷ ("P", "p")
    ∷ ("Q", "q")
    ∷ ("R", "r")
    ∷ ("S", "s")
    ∷ ("T", "t")
    ∷ ("U", "u")
    ∷ ("V", "v")
    ∷ ("W", "w")
    ∷ ("X", "x")
    ∷ ("Y", "y")
    ∷ ("Z", "z")
    ∷ []

lower_char : Char → List (Char × Char) → Char
lower_char c [] = c
lower_char c ((u, l) ∷ table) = if nat_eq (code c) (code u) then l else lower_char c table

upper_char : Char → List (Char × Char) → Char
upper_char c [] = c
upper_char c ((u, l) ∷ table) = if nat_eq (code c) (code l) then u else upper_char c table

unfoldable pub lower : String → String
unfolding lower_char
lower String.[] = ""
lower (String.◌∷◌ c s) = String.◌∷◌ (lower_char c letters) (lower s)

unfoldable pub upper : String → String
unfolding upper_char
upper String.[] = ""
upper (String.◌∷◌ c s) = String.◌∷◌ (upper_char c letters) (upper s)

-- The code points of a text.
abbrev pub codes : String → List ℕ
codes String.[] = []
codes (String.◌∷◌ c s) = code c ∷ codes s

-- Tab to carriage return, the four separators, and the space.
abbrev pub is_space : ℕ → Bool
is_space c = (leb 9 c && leb c 13) || (leb 28 c && leb c 32)

-- Whether `s.strip()` is not empty.
unfoldable pub has_text : String → Bool
has_text String.[] = false
has_text (String.◌∷◌ c s) = not (is_space (code c)) || has_text s

-- `s.strip()`: the left end is dropped, then the right.
trim_right : String → String
trim_right String.[] = ""
trim_right (String.◌∷◌ c s) = if has_text (String.◌∷◌ c s) then String.◌∷◌ c (trim_right s) else ""

trim_left : String → String
trim_left String.[] = ""
trim_left (String.◌∷◌ c s) = if is_space (code c) then trim_left s else String.◌∷◌ c s

unfoldable pub strip : String → String
unfolding trim_left trim_right
strip s = trim_right (trim_left s)

-- `s.split(sep)` for a separator of one character: the first part, and the others.
split_from : ℕ → String → String × List String
split_from sep String.[] = ("", [])
split_from sep (String.◌∷◌ c s) =
    let (first, others) = split_from sep s in
    if nat_eq (code c) sep then ("", first ∷ others) else (String.◌∷◌ c first, others)

unfoldable pub split : ℕ → String → List String
unfolding split_from
split sep s = let (first, others) = split_from sep s in first ∷ others

-- What follows the prefix, if it is one.
unfoldable pub remove_prefix : String → String → Option String
remove_prefix String.[] s = some s
remove_prefix (String.◌∷◌ p ps) String.[] = none
remove_prefix (String.◌∷◌ p ps) (String.◌∷◌ c s) =
    let rest = remove_prefix ps s in if nat_eq (code p) (code c) then rest else none

unfoldable pub starts_with : String → String → Bool
unfolding remove_prefix
starts_with s p = elim (remove_prefix p s) [ none ↦ false | some _ ↦ true ]

-- `s.replace(old, new)` for an `old` that is not empty: `skip` counts the characters of a match
-- that are still to be dropped.
replace_from : ℕ → String → String → String → String
replace_from skip old new String.[] = ""
replace_from (suc skip) old new (String.◌∷◌ c s) = replace_from skip old new s
replace_from zero old new (String.◌∷◌ c s) =
    let kept = String.◌∷◌ c (replace_from zero old new s) in
    let replaced = append new (replace_from (Prim.Native.String.count old - 1) old new s) in
    if starts_with (String.◌∷◌ c s) old then replaced else kept

unfoldable pub replace : String → String → String → String
unfolding replace_from starts_with
replace s old new = replace_from 0 old new s

replace_utc : replace "2026-09-27T19:29:36+0000" "+0000" "+00:00" ≡ "2026-09-27T19:29:36+00:00"
unfolding replace
replace_utc = refl

split_lpa : split b'$' "LPA:1$rsp.example.com$ID-7" ≡ "LPA:1" ∷ "rsp.example.com" ∷ "ID-7" ∷ []
unfolding split
split_lpa = refl

case_tests : (lower "GOT_Resource1" ≡ "got_resource1") × (upper "in_use" ≡ "IN_USE")
unfolding lower upper
case_tests = (refl, refl)
