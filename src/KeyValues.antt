-- ===== src/KeyValues.antt =====
-- The key=value files that load_config of vehicle_client/vehicle_client_app.cc and of
-- cockpit_client/cockpit_client_app.cc reads, and the look-ups that it makes.
use Prim.Native.String.{len, slice}
use text.Mathlib.Text.{find?}
use whl_air.Base.{
  ℕ, ◌+◌, ◌≤◌, String, ◌==◌, Option, none, some, List, [], ◌∷◌, arith, ltb, if◌then◌else◌,
}
use whl_air.Base.Int.{ℤ, pos, negsuc}
use whl_air.StringMap
use whl_air.StringMap.{Map}
use whl_air.Stoi.{stoi}
use whl_air.Trim.{trim, is_empty}

-- What one line, trimmed, adds: `none` for an invalid line.
unfoldable add_line : Map String → String → Option (Map String)
add_line kv line =
    let key = λ (at : ℕ). trim (slice line 0 at) in
    let value = λ (at : ℕ). trim (slice line (at + 1) (len line)) in
    if is_empty line
    then some kv
    else if slice line 0 1 == "#"
    then some kv
    else elim (find? line "=") [
      | none ↦ none
      | some at ↦ some (if is_empty (key at) then kv else StringMap.insert (key at) (value at) kv)
    ]

-- The loop over the lines of the file.
unfoldable pub parse : Map String → List String → Option (Map String)
unfolding add_line trim
parse kv [] = some kv
parse kv (line ∷ rest) = elim (add_line kv (trim line)) [
  | none ↦ none
  | some more ↦ parse more rest
]

-- `if (kv.count(key)) field = kv[key]`
unfoldable pub text_of : Map String → String → String → String
text_of kv key field = elim (StringMap.find key kv) [ none ↦ field | some value ↦ value ]

-- `std::max(low, parsed)`, for a bound that is not negative.
unfoldable pub at_least : ℕ → ℤ → ℕ
at_least low (negsuc n) = low
at_least low (pos n) = if ltb low n then n else low

-- `if (kv.count(key) && to_int(kv[key], &parsed)) field = std::max(low, parsed)`
unfoldable pub int_of : Map String → String → ℕ → ℕ → ℕ
unfolding stoi at_least
int_of kv key low field = elim (StringMap.find key kv) [
  | none ↦ field
  | some value ↦ elim (stoi value) [ none ↦ field | some parsed ↦ at_least low parsed ]
]

at_least_bound : (low : ℕ) (n : ℤ) → low ≤ at_least low n
unfolding at_least
at_least_bound low (negsuc n) = omega arith
at_least_bound low (pos n) = ground arith

pub int_of_bound :
    (kv : Map String) (key : String) (low field : ℕ) → low ≤ field → low ≤ int_of kv key low field
unfolding int_of
int_of_bound kv key low field h = grind (arith, at_least_bound)
