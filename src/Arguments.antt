-- ===== src/Arguments.antt =====
-- The command lines of vehicle_client/vehicle_client_app.cc and cockpit_client/cockpit_client_app.cc,
-- whose two functions main read them in the same way, and the exit codes.
pub mod CommandLine
use Prim.Native.Char.{code}
use Prim.Native.String.{[] as no_text, ◌∷◌ as ◌::◌}
use whl_air.Base.{
  ℕ, String, ◌≡◌, refl, ap, sym, ◌∙◌, ◌==◌, eq_iff, Bool, true, false, not, ◌||◌, Option, none,
  some, List, [], ◌∷◌, ◌++◌, arith, eqb, if◌then◌else◌,
}
use whl_air.Base.Int.{ℤ, pos}
use whl_air.Stoi.{stoi}
use whl_air.KeyValues.{at_least}

pub record Options : Type 0 where
  pub config_path : String
  pub show_help : Bool
  pub self_test : Bool
  pub run_seconds : ℕ

abbrev pub default : Options
default = record { config_path = ""; show_help = false; self_test = false; run_seconds = 0 }

-- `!arg.empty() && arg[0] != '-'`
pub is_bare : String → Bool
is_bare no_text = false
is_bare (c :: s) = not (eqb (code c) 45)

-- How an argument that has another one behind it is read, in the order of the tests.
pub data Kind : Type 0 where
  help seconds config flag : Kind

pub kind : String → Kind
kind arg =
    if arg == "--help" || arg == "-h"
    then help
    else if arg == "--self-test"
    then flag
    else if arg == "--run-seconds"
    then seconds
    else if arg == "--config"
    then config
    else flag

-- An argument that takes no value: `none` for an unknown argument.
unfoldable pub plain : Options → String → Option Options
unfolding is_bare
plain o arg =
    if arg == "--self-test"
    then some (record o { self_test = true })
    else if is_bare arg
    then some (record o { config_path = arg })
    else none

-- The loop over `argv` from its second entry: `none` where main returns 2. The exceptional end of
-- to_int is that of `std::stoi`.
unfoldable pub read : Options → List String → Option Options
unfolding kind plain
read o [] = some o
read o (arg ∷ []) =
    if arg == "--help" || arg == "-h" then some (record o { show_help = true }) else plain o arg
read o (arg ∷ value ∷ rest) = elim (kind arg) [
  | help ↦ some (record o { show_help = true })
  | seconds ↦ elim (stoi value) [
    | none ↦ none
    | some parsed ↦ read (record o { run_seconds = at_least 0 parsed }) rest
  ]
  | config ↦ read (record o { config_path = value }) rest
  | flag ↦ elim (plain o arg) [ none ↦ none | some next ↦ read next (value ∷ rest) ]
]

seconds-is_bare : (arg : String) → (arg == "--run-seconds") ≡ true → is_bare arg ≡ false
unfolding is_bare
seconds-is_bare arg e =
    let same : arg ≡ "--run-seconds" = ground (arith, eq_iff arg "--run-seconds") in rw same refl

config-is_bare : (arg : String) → (arg == "--config") ≡ true → is_bare arg ≡ false
unfolding is_bare
config-is_bare arg e =
    let same : arg ≡ "--config" = ground (arith, eq_iff arg "--config") in rw same refl

-- The last argument, by its kind: one that takes a value is unknown there.
read-last :
    (o : Options) (arg : String)
    → read o (arg ∷ []) ≡ elim (kind arg) [
      | help ↦ some (record o { show_help = true })
      | seconds ↦ none
      | config ↦ none
      | flag ↦ plain o arg
    ]
unfolding read kind plain
read-last o arg =
    ground (arith, seconds-is_bare arg, config-is_bare arg, eq_iff "--config" "--self-test")

-- What is done with an argument by its kind, with the value of the next one as a number and the
-- options as they are if it takes no value.
abbrev proceed : Options → String → Kind → Option ℤ → Option Options → List String → Option Options
proceed o value help parsed p l = some (record o { show_help = true })
proceed o value seconds none p l = none
proceed o value seconds (some n) p l = read (record o { run_seconds = at_least 0 n }) l
proceed o value config parsed p l = read (record o { config_path = value }) l
proceed o value flag parsed none l = none
proceed o value flag parsed (some after) l = read after (value ∷ l)

module _ (o next : Options) (value : String) (rest : List String)
    (shown : next.show_help ≡ false) where
  proceed-last :
      (k : Kind) (parsed : Option ℤ) (p : Option Options)
      → elim k [
        | help ↦ some (record o { show_help = true })
        | seconds ↦ none
        | config ↦ none
        | flag ↦ p
      ]
        ≡ some next
      → proceed o value k parsed p rest ≡ read next (value ∷ rest)
  proceed-last help parsed p e = cc
  proceed-last seconds parsed p e = cc
  proceed-last config parsed p e = cc
  proceed-last flag parsed none e = cc
  proceed-last flag parsed (some after) e = let same : after ≡ next = cc in rw same refl

  proceed-append :
      (more : List String) (k : Kind) (parsed : Option ℤ) (p : Option Options)
      → ((q : Options) → read q rest ≡ some next → read q (rest ++ more) ≡ read next more)
      → ((q : Options)
          → read q (value ∷ rest) ≡ some next
          → read q (value ∷ rest ++ more) ≡ read next more)
      → proceed o value k parsed p rest ≡ some next
      → proceed o value k parsed p (rest ++ more) ≡ read next more
  proceed-append more help parsed p skip keep e = cc
  proceed-append more seconds none p skip keep e = cc
  proceed-append more seconds (some n) p skip keep e =
      skip (record o { run_seconds = at_least 0 n }) e
  proceed-append more config parsed p skip keep e = skip (record o { config_path = value }) e
  proceed-append more flag parsed none skip keep e = cc
  proceed-append more flag parsed (some after) skip keep e = keep after e

read-proceed :
    (o : Options) (arg value : String) (rest : List String)
    → read o (arg ∷ value ∷ rest) ≡ proceed o value (kind arg) (stoi value) (plain o arg) rest
unfolding read
read-proceed o arg value rest = ground arith

-- A command line that is read in full and asks for no help may be followed by any other one: the whole
-- is read as the second one is when it starts from the options of the first.
pub read-append :
    (o : Options) (args more : List String) (next : Options)
    → read o args ≡ some next
    → next.show_help ≡ false
    → read o (args ++ more) ≡ read next more
unfolding read
read-append o [] more next e shown = let same : o ≡ next = cc in rw same refl
read-append o (arg ∷ []) [] next e shown = e
read-append o (arg ∷ []) (value ∷ rest) next e shown =
    read-proceed o arg value rest
    ∙ proceed-last o next value rest shown (kind arg) (stoi value) (plain o arg)
        (sym (read-last o arg) ∙ e)
read-append o (arg ∷ value ∷ rest) more next e shown =
    read-proceed o arg value (rest ++ more)
    ∙ proceed-append o next value rest shown more (kind arg) (stoi value) (plain o arg)
        (λ q h. read-append q rest more next h shown)
        (λ q h. read-append q (value ∷ rest) more next h shown)
        (sym (read-proceed o arg value rest) ∙ e)
