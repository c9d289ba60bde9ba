-- ===== src/ExitCode.antt =====
-- The exit codes of the functions main of vehicle_client/vehicle_client_app.cc and of
-- cockpit_client/cockpit_client_app.cc, which are the same but for load_config and the self test.
use whl_air.Base.{
  ℕ, String, ◌≡◌, ap, ◌∙◌, ◌==◌, Bool, true, false, not, Option, none, some, List, refl, arith,
  if◌then◌else◌,
}
use whl_air.Arguments.{Options, default, read}
use whl_air.Arguments.CommandLine.{Argument, AllSpelled, spelled, meant, read-spelled, shown-meant}

-- `success ? 0 : 5`
abbrev pub verdict : Bool → ℕ
verdict success = if success then 0 else 5

-- What main returns is an exit code, or one that is there only if the program comes to its end.
module _ {R : Type 0} (returns : ℕ → R) where
  -- From the configuration on. Without a self test the program runs for the given time or until it is
  -- stopped, and is successful.
  unfoldable pub outcome : {C : Type 0} → (C → R) → Options → C → R
  outcome self_test o config = if o.self_test then self_test config else returns (verdict true)

  -- The file system as `std::filesystem::exists` sees it, load_config of the program, from the text of
  -- the path on, and its self test.
  module _ {C : Type 0} (exists : String → Bool) (load : String → Option C)
      (self_test : C → R) where
    -- From the arguments on.
    pub exit_with : Options → R
    unfolding outcome
    exit_with o =
        if o.show_help
        then returns 0
        else if o.config_path == ""
        then returns 2
        else if not (exists o.config_path)
        then returns 3
        else elim (load o.config_path) [
          | none ↦ returns 4
          | some config ↦ outcome self_test o config
        ]

    unfoldable pub exit_code : List String → R
    unfolding exit_with
    exit_code args = elim (read default args) [ none ↦ returns 2 | some o ↦ exit_with o ]

    loaded_exit :
        (o : Options) (config : C)
        → o.show_help ≡ false
        → (o.config_path == "") ≡ false
        → exists o.config_path ≡ true
        → load o.config_path ≡ some config
        → exit_with o ≡ outcome self_test o config
    unfolding exit_with
    loaded_exit o config shown named there loaded = ground (arith, shown, named, there, loaded)

    -- Any command line without help, over a file that is there and is read.
    pub exit_code-spelled :
        (line : List Argument) (config : C)
        → AllSpelled line
        → ((meant default line).config_path == "") ≡ false
        → exists (meant default line).config_path ≡ true
        → load (meant default line).config_path ≡ some config
        → exit_code (spelled line) ≡ outcome self_test (meant default line) config
    unfolding exit_code
    exit_code-spelled line config p named there loaded =
        ap (λ r. elim r [ none ↦ returns 2 | some o ↦ exit_with o ])
          (read-spelled default line p refl)
        ∙ loaded_exit (meant default line) config (shown-meant default line refl) named there loaded
