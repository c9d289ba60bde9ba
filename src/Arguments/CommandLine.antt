-- ===== src/Arguments/CommandLine.antt =====
-- Command lines of vehicle_client/vehicle_client_app.cc and cockpit_client/cockpit_client_app.cc as lists
-- of options in any order, and what they mean.
use Prim.Native.Char.{Char, code}
use Prim.Native.String.{◌∷◌ as ◌::◌}
use whl_air.Base.{
  ℕ, String, ◌≡◌, refl, ap, ◌∙◌, ◌==◌, eq_iff, true, false, Bool-cases, inl, inr, some, List, [],
  ◌∷◌, ◌++◌, arith, eqb,
}
use whl_air.Base.Int.{ℤ, pos, negsuc}
use whl_air.Stoi.{stoi}
use whl_air.KeyValues.{at_least}
use whl_air.Arguments.{Options, is_bare, kind, plain, read, read-append}

-- The flag, an option with its value, and a path alone, by its first character and the others.
pub data Argument : Type 0 where
  self_test : Argument
  run_seconds : String → ℤ → Argument
  config : String → Argument
  path : Char → String → Argument

pub spelled_one : Argument → List String
spelled_one self_test = "--self-test" ∷ []
spelled_one (run_seconds text n) = "--run-seconds" ∷ text ∷ []
spelled_one (config file) = "--config" ∷ file ∷ []
spelled_one (path c s) = (c :: s) ∷ []

pub spelled : List Argument → List String
spelled [] = []
spelled (a ∷ line) = spelled_one a ++ spelled line

-- The text of a number of seconds is one for std::stoi, and a path alone does not begin with a dash.
abbrev pub IsSpelled : Argument → Type 0
IsSpelled self_test = Unit
IsSpelled (run_seconds text n) = stoi text ≡ some n
IsSpelled (config file) = Unit
IsSpelled (path c s) = eqb (code c) 45 ≡ false

abbrev pub AllSpelled : List Argument → Type 0
AllSpelled [] = Unit
AllSpelled (a ∷ line) = IsSpelled a × AllSpelled line

-- No number of seconds is below 0.
abbrev pub whole : ℤ → ℕ
whole (pos n) = n
whole (negsuc n) = 0

abbrev pub meant_one : Options → Argument → Options
meant_one o self_test = record o { self_test = true }
meant_one o (run_seconds text n) = record o { run_seconds = whole n }
meant_one o (config file) = record o { config_path = file }
meant_one o (path c s) = record o { config_path = c :: s }

-- Later options override earlier ones.
abbrev pub meant : Options → List Argument → Options
meant o [] = o
meant o (a ∷ line) = meant (meant_one o a) line

at_least-whole : (n : ℤ) → at_least 0 n ≡ whole n
unfolding at_least
at_least-whole (pos n) = ground arith
at_least-whole (negsuc n) = ground arith

-- A path alone is none of the options.
bare-apart : (arg name : String) → is_bare arg ≡ true → is_bare name ≡ false → (arg == name) ≡ false
bare-apart arg name p q = elim (Bool-cases (arg == name)) [
  | inl e ↦
      let same : arg ≡ name = ground (arith, e, eq_iff arg name) in
      let both : is_bare arg ≡ is_bare name = ap is_bare same in ground (arith, both, p, q)
  | inr e ↦ e
]

bare-read :
    (o : Options) (arg : String)
    → is_bare arg ≡ true
    → is_bare "--help" ≡ false
    → is_bare "-h" ≡ false
    → is_bare "--self-test" ≡ false
    → read o (arg ∷ []) ≡ some (record o { config_path = arg })
unfolding read plain
bare-read o arg p a b c = ground (
  arith,
  p,
  bare-apart arg "--help" p a,
  bare-apart arg "-h" p b,
  bare-apart arg "--self-test" p c,
)

read-one :
    (o : Options) (a : Argument) → IsSpelled a → read o (spelled_one a) ≡ some (meant_one o a)
unfolding read kind plain spelled_one is_bare
read-one o self_test p = ground arith
read-one o (run_seconds text n) p = ground (arith, p, at_least-whole n)
read-one o (config file) p = ground arith
read-one o (path c s) p = bare-read o (c :: s) (ground (arith, p)) refl refl refl

shown-one : (o : Options) (a : Argument) → o.show_help ≡ false → (meant_one o a).show_help ≡ false
shown-one o self_test h = h
shown-one o (run_seconds text n) h = h
shown-one o (config file) h = h
shown-one o (path c s) h = h

pub shown-meant :
    (o : Options) (line : List Argument) → o.show_help ≡ false → (meant o line).show_help ≡ false
shown-meant o [] h = h
shown-meant o (a ∷ line) h = shown-meant (meant_one o a) line (shown-one o a h)

-- A command line is read as what it means.
pub read-spelled :
    (o : Options) (line : List Argument)
    → AllSpelled line
    → o.show_help ≡ false
    → read o (spelled line) ≡ some (meant o line)
unfolding read spelled
read-spelled o [] p h = refl
read-spelled o (a ∷ line) p h =
    read-append o (spelled_one a) (spelled line) (meant_one o a) (read-one o a p.0)
      (shown-one o a h)
    ∙ read-spelled (meant_one o a) line p.1 (shown-one o a h)
