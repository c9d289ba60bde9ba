-- ===== src/Stoi.antt =====
-- `std::stoi` of the C++ library, as the program calls it: base ten, and `none` for its exceptions.
use Prim.Native.Char.{Char, code}
use Prim.Native.String.{String, [], ◌∷◌}
use whl_air.Base.{
  ℕ, zero, suc, ◌+◌, ◌*◌, ◌-◌, Bool, ◌&&◌, ◌||◌, Option, none, some, ltb, eqb, if◌then◌else◌,
}
use whl_air.Base.Int.{ℤ, pos, negsuc}

abbrev pub is_digit : Char → Bool
is_digit c = ltb 47 (code c) && ltb (code c) 58

-- The blanks of the C locale: tab to carriage return, and space.
abbrev pub is_space : Char → Bool
is_space c = (ltb 8 (code c) && ltb (code c) 14) || eqb (code c) 32

unfoldable pub skip_spaces : String → String
skip_spaces [] = []
skip_spaces (c ∷ s) = let rest = skip_spaces s in if is_space c then rest else c ∷ s

-- The value of the digits up to the first character that is none, after those of value `acc`.
unfoldable pub digits : ℕ → String → ℕ
digits acc [] = acc
digits acc (c ∷ s) =
    let more = digits (acc * 10 + (code c - 48)) s in if is_digit c then more else acc

-- The exception `invalid_argument`: there is no digit.
unfoldable pub magnitude : String → Option ℕ
unfolding digits
magnitude [] = none
magnitude (c ∷ s) = if is_digit c then some (digits 0 (c ∷ s)) else none

-- The exception `out_of_range`: the value is no int.
unfoldable pub plus : Option ℕ → Option ℤ
plus none = none
plus (some n) = if ltb n 2147483648 then some (pos n) else none

unfoldable pub minus : Option ℕ → Option ℤ
minus none = none
minus (some zero) = some (pos 0)
minus (some (suc n)) = if ltb n 2147483648 then some (negsuc n) else none

unfoldable pub signed : String → Option ℤ
unfolding plus minus magnitude
signed [] = none
signed (c ∷ s) =
    if eqb (code c) 45
    then minus (magnitude s)
    else if eqb (code c) 43
    then plus (magnitude s)
    else plus (magnitude (c ∷ s))

unfoldable pub stoi : String → Option ℤ
unfolding signed skip_spaces
stoi s = signed (skip_spaces s)
