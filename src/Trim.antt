-- ===== src/Trim.antt =====
-- The function `trim` of vehicle_client/vehicle_client_app.cc and cockpit_client/cockpit_client_app.cc,
-- and the searches for characters that the cockpit's parser makes of a text.
use Prim.Native.Char.{Char, code}
use Prim.Native.String.{String, [], ◌∷◌}
use whl_air.Base.{◌≡◌, refl, ap, ◌∙◌, Bool, true, false, ◌&&◌, ◌||◌, eqb, arith, if◌then◌else◌}

-- The characters " \t\r\n".
abbrev pub is_blank : Char → Bool
is_blank c = eqb (code c) 32 || eqb (code c) 9 || eqb (code c) 13 || eqb (code c) 10

abbrev pub is_empty : String → Bool
is_empty [] = true
is_empty (c ∷ s) = false

-- From `find_first_not_of` on.
unfoldable pub drop_while : (Char → Bool) → String → String
drop_while test [] = []
drop_while test (c ∷ s) = let rest = drop_while test s in if test c then rest else c ∷ s

-- Up to `find_first_of`.
unfoldable pub until : (Char → Bool) → String → String
until test [] = []
until test (c ∷ s) = let rest = until test s in if test c then [] else c ∷ rest

-- Up to `find_last_not_of` and with it.
pub drop_end : String → String
drop_end [] = []
drop_end (c ∷ s) = let rest = drop_end s in if is_empty rest && is_blank c then [] else c ∷ rest

unfoldable pub trim : String → String
unfolding drop_while drop_end
trim s = drop_end (drop_while is_blank s)

drop_end-drop_end : (s : String) → drop_end (drop_end s) ≡ drop_end s
unfolding drop_end
drop_end-drop_end [] = refl
drop_end-drop_end (c ∷ s) = ground (arith, drop_end-drop_end s)

-- A text that begins with no blank.
abbrev Begins : String → Type 0
Begins [] = Unit
Begins (c ∷ s) = is_blank c ≡ false

either-Begins :
    (b : Bool) (rest : String) (c : Char) (s : String)
    → is_blank c ≡ b
    → Begins rest
    → Begins (if b then rest else c ∷ s)
either-Begins true rest c s e h = h
either-Begins false rest c s e h = e

drop_while-Begins : (s : String) → Begins (drop_while is_blank s)
unfolding drop_while
drop_while-Begins [] = tt
drop_while-Begins (c ∷ s) =
    either-Begins (is_blank c) (drop_while is_blank s) c s refl (drop_while-Begins s)

drop_while-drop_end : (s : String) → Begins s → drop_while is_blank (drop_end s) ≡ drop_end s
unfolding drop_while drop_end
drop_while-drop_end [] b = refl
drop_while-drop_end (c ∷ s) b = ground arith

pub trim-trim : (s : String) → trim (trim s) ≡ trim s
unfolding trim
trim-trim s =
    ap drop_end (drop_while-drop_end (drop_while is_blank s) (drop_while-Begins s))
    ∙ drop_end-drop_end (drop_while is_blank s)
