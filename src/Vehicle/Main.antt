-- ===== src/Vehicle/Main.antt =====
-- main of vehicle_client/vehicle_client_app.cc.
use whl_air.Base.{
  ℕ, String, ◌≡◌, ◌∙◌, ◌==◌, Bool, true, false, Option, some, List, arith, if◌then◌else◌,
}
use whl_air.Arguments as CommandLine
use whl_air.Arguments.CommandLine.{Argument, AllSpelled, spelled, meant}
use whl_air.ExitCode.{exit_code, exit_code-spelled, outcome, verdict}
use whl_air.SelfTest.{Moment, perform}
use whl_air.Vehicle.Config.{RuntimeConfig, default, load_config}
use whl_air.Vehicle.Runtime.{RuntimeState}
use whl_air.Vehicle.App.{started}
use whl_air.Vehicle.App.SelfTest.{Tick, tick, act, script, run_self_test}
use whl_air.Vehicle.App.Quiet.{core, final}
use whl_air.Vehicle.App.Verdict.{is_timely, vehicle_verdict_is_timely}

-- With the file system, whose files are lists of lines and none where they cannot be opened, and what
-- the other threads do during a self test.
unfoldable pub main :
    (String → Bool) → (String → Option (List String)) → (ℕ → Moment Tick) → List String → ℕ
unfolding exit_code
main exists open_file moments args =
    exit_code (λ n. n) exists (λ path. load_config (open_file path) default)
      (λ config. verdict (run_self_test config moments)) args

module _ (exists : String → Bool) (open_file : String → Option (List String))
    (moments : ℕ → Moment Tick) where
  -- A vehicle client that is started for a self test, by any options and paths in any order whose
  -- last path is that of a file that is there and holds a configuration, and that is not asked to stop,
  -- never fails at a command and comes to the last check of the test, whatever rounds of the other
  -- threads fall in between. It then is in the state `final` but for those threads' counters, and the
  -- exit code is 0 if they show that the camera, telemetry and heartbeat threads have run often enough,
  -- and 5 otherwise: none of the fifteen other checks can fail.
  pub vehicle_self_test_exits :
      (line : List Argument) (config : RuntimeConfig)
      → AllSpelled line
      → (meant CommandLine.default line).self_test ≡ true
      → ((meant CommandLine.default line).config_path == "") ≡ false
      → exists (meant CommandLine.default line).config_path ≡ true
      → load_config (open_file (meant CommandLine.default line).config_path) default ≡ some config
      → ((n : ℕ) → (moments n).stop_requested ≡ false)
      → (last : RuntimeState) × (perform tick act moments 0 started script ≡ some last)
        × (core last ≡ final)
        × (main exists open_file moments (spelled line) ≡ (if is_timely config last then 0 else 5))
  unfolding main outcome
  vehicle_self_test_exits line config p tested named there loaded unstopped =
      let (last, ended, same, judged) = vehicle_verdict_is_timely config moments unstopped in
      let exits =
        exit_code-spelled (λ n. n) exists (λ path. load_config (open_file path) default)
          (λ c. verdict (run_self_test c moments)) line config p named there loaded in
      (last, ended, same, exits ∙ ground (arith, tested, judged))
