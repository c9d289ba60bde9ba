-- ===== src/Signaling/Scan.antt =====
-- A search without positions, as a reference for the ones of signaling/signaling_message.cc,
-- DeserializeSignalMessage: what stands behind the first occurrence of a token, and what stands before
-- a character.
pub mod Positions
pub mod Ends
pub mod Equivalence
use Prim.Native.Char.{Char, code}
use Prim.Native.String.{[], ◌∷◌}
use whl_air.Base.{String, ◌<>◌, Bool, ◌||◌, Option, none, some, eqb, if◌then◌else◌}
use whl_air.Base.Int.{ℤ}
use whl_air.Stoi.{stoi}

-- The text without the token that it begins with.
unfoldable pub strip : String → String → Option String
strip s [] = some s
strip [] (d ∷ t) = none
strip (c ∷ s) (d ∷ t) = let rest = strip s t in if eqb (code c) (code d) then rest else none

-- The text behind the first occurrence of the token.
unfoldable pub behind : String → String → Option String
unfolding strip
behind [] t = strip [] t
behind (c ∷ s) t =
    let later = behind s t in elim (strip (c ∷ s) t) [ some rest ↦ some rest | none ↦ later ]

-- The text before the first character that passes the test, if there is one.
unfoldable pub before : (Char → Bool) → String → Option String
before test [] = none
before test (c ∷ s) =
    let later = before test s in
    if test c then some [] else elim later [ none ↦ none | some v ↦ some (c ∷ v) ]

abbrev pub is_quote : Char → Bool
is_quote c = eqb (code c) 34

-- The comma and the closing brace.
abbrev pub is_end : Char → Bool
is_end c = eqb (code c) 44 || eqb (code c) 125

-- What stands between the token of the key and the next quote.
unfoldable pub quoted_value : String → String → Option String
unfolding behind before
quoted_value text key = elim (behind text ("\"" <> key <> "\":\"")) [
  | none ↦ none
  | some rest ↦ before is_quote rest
]

-- The number that stands between the token of the key and the next comma or brace.
unfoldable pub int_value : String → String → Option ℤ
unfolding behind before stoi
int_value text key = elim (behind text ("\"" <> key <> "\":")) [
  | none ↦ none
  | some rest ↦ elim (before is_end rest) [ none ↦ none | some digits ↦ stoi digits ]
]
