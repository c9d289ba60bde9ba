-- ===== src/Signaling/Pieces.antt =====
-- A serialized message as a list of pieces (signaling/signaling_message.cc), and what a search for a
-- key finds in it.
pub mod Search
pub mod Lookup
pub mod Reading
pub mod Layout
pub mod Fields
pub mod Values
pub mod Naming
use Prim.Native.Char.{Char, code}
use Prim.Native.String.{[], ◌∷◌}
use whl_air.Base.{String, ◌≡◌, Bool, true, false, ◌&&◌, Option, none, some, eqb, ltb, if◌then◌else◌}
use whl_air.Base.Int.{ℤ}
use whl_air.Stoi.{stoi}
use whl_air.Signaling.Serialize.{to_string}
use whl_air.Signaling.Scan.{is_end}

-- A field with a text, a field with a number, a field with an object up to its opening brace, and a
-- character between fields, each in front of the pieces that follow.
pub data Pieces : Type 0 where
  done : Pieces
  text_of : String → String → Pieces → Pieces
  number_of : String → ℤ → Pieces → Pieces
  opened : String → Pieces → Pieces
  mark : Char → Pieces → Pieces

abbrev pub quote : Char
quote = "\""

abbrev pub colon : Char
colon = ":"

abbrev pub brace : Char
brace = "{"

-- Concatenation that computes.
abbrev pub cat : String → String → String
cat [] t = t
cat (c ∷ s) t = c ∷ cat s t

abbrev pub same : String → String → Bool
same [] [] = true
same [] (d ∷ t) = false
same (c ∷ s) [] = false
same (c ∷ s) (d ∷ t) = eqb (code c) (code d) && same s t

-- A text without quotes.
abbrev pub IsPlain : String → Type 0
IsPlain [] = Unit
IsPlain (c ∷ s) = (eqb (code c) 34 ≡ false) × IsPlain s

abbrev pub is_letter : Char → Bool
is_letter c = ltb 96 (code c) && ltb (code c) 123

-- What the parser searches for: a letter at the beginning, and no quotes.
abbrev pub IsKey : String → Type 0
IsKey [] = ⊥
IsKey (c ∷ s) = (is_letter c ≡ true) × IsPlain (c ∷ s)

-- A text that may follow a quote without making a key of what stands before or behind.
abbrev pub IsNext : String → Type 0
IsNext [] = Unit
IsNext (c ∷ s) = (eqb (code c) 58 ≡ false) × (is_letter c ≡ false)

-- The text of the pieces, in front of a text.
abbrev pub render : Pieces → String → String
render done tail = tail
render (text_of name v ps) tail =
    quote ∷ cat name (quote ∷ colon ∷ quote ∷ cat v (quote ∷ render ps tail))
render (number_of name n ps) tail =
    quote ∷ cat name (quote ∷ colon ∷ cat (to_string n) (render ps tail))
render (opened name ps) tail = quote ∷ cat name (quote ∷ colon ∷ brace ∷ render ps tail)
render (mark c ps) tail = c ∷ render ps tail

abbrev pub or_else {ℓ} : {A : Type ℓ} → Option A → Option A → Option A
or_else none o = o
or_else (some a) o = some a

-- The first text of that name.
abbrev pub lookup : String → Pieces → Option String
lookup key done = none
lookup key (text_of name v ps) =
    let later = lookup key ps in if same name key then some v else later
lookup key (number_of name n ps) = lookup key ps
lookup key (opened name ps) = lookup key ps
lookup key (mark c ps) = lookup key ps

-- The first number of that name.
abbrev pub lookup_number : String → Pieces → Option ℤ
lookup_number key done = none
lookup_number key (number_of name n ps) =
    let later = lookup_number key ps in if same name key then some n else later
lookup_number key (text_of name v ps) = lookup_number key ps
lookup_number key (opened name ps) = lookup_number key ps
lookup_number key (mark c ps) = lookup_number key ps

-- The text of a number: no quotes, commas or braces.
abbrev pub IsNumberText : String → Type 0
IsNumberText [] = Unit
IsNumberText (c ∷ s) = (eqb (code c) 34 ≡ false) × (is_end c ≡ false) × IsNumberText s

-- A text that ends a number.
abbrev pub IsEnding : String → Type 0
IsEnding [] = ⊥
IsEnding (c ∷ s) = is_end c ≡ true

-- Texts and names without quotes, numbers that a comma or brace follows, and characters between
-- fields that are neither quotes, colons nor letters, all in front of `tail`.
abbrev pub IsLaidOut : Pieces → String → Type 0
IsLaidOut done tail = IsNext tail
IsLaidOut (text_of name v ps) tail = IsPlain name × IsPlain v × IsLaidOut ps tail
IsLaidOut (number_of name n ps) tail =
    IsPlain name
    × IsNumberText (to_string n)
    × (stoi (to_string n) ≡ some n)
    × IsEnding (render ps tail)
    × IsLaidOut ps tail
IsLaidOut (opened name ps) tail = IsPlain name × IsLaidOut ps tail
IsLaidOut (mark c ps) tail =
    (eqb (code c) 34 ≡ false)
    × (eqb (code c) 58 ≡ false)
    × (is_letter c ≡ false)
    × IsLaidOut ps tail

-- No number has that name.
abbrev pub NamesNoNumber : String → Pieces → Type 0
NamesNoNumber key done = Unit
NamesNoNumber key (text_of name v ps) = NamesNoNumber key ps
NamesNoNumber key (number_of name n ps) = (same name key ≡ false) × NamesNoNumber key ps
NamesNoNumber key (opened name ps) = NamesNoNumber key ps
NamesNoNumber key (mark c ps) = NamesNoNumber key ps

-- No text and no object has that name.
abbrev pub NamesNoText : String → Pieces → Type 0
NamesNoText key done = Unit
NamesNoText key (text_of name v ps) = (same name key ≡ false) × NamesNoText key ps
NamesNoText key (number_of name n ps) = NamesNoText key ps
NamesNoText key (opened name ps) = (same name key ≡ false) × NamesNoText key ps
NamesNoText key (mark c ps) = NamesNoText key ps
