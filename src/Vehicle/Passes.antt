-- ===== src/Vehicle/Passes.antt =====
-- When the self test of vehicle_client/vehicle_client_app.cc ends with the exit code 0.
use whl_air.Base.{
  ℕ, String, ◌≡◌, ◌≤◌, ◌∙◌, ◌==◌, ap, sym, Bool, true, false, Option, some, List, arith, ltb,
}
use whl_air.Arguments as CommandLine
use whl_air.Arguments.CommandLine.{Argument, AllSpelled, spelled, meant}
use whl_air.SelfTest.{Moment, perform-ticks, end_of}
use whl_air.Vehicle.Config.{RuntimeConfig, default, load_config}
use whl_air.Vehicle.Runtime.{RuntimeState}
use whl_air.Vehicle.App.{started}
use whl_air.Vehicle.App.SelfTest.{Tick, tick, act, script}
use whl_air.Vehicle.App.Verdict.{is_timely}
use whl_air.Vehicle.App.Busy.{cameras, telemetries, heartbeats, ticks-is_timely, ticks-peer}
use whl_air.Vehicle.Main.{main, vehicle_self_test_exits}

module _ (exists : String → Bool) (open_file : String → Option (List String))
    (moments : ℕ → Moment Tick) where
  -- What the other threads do while the test sleeps behind its last step.
  abbrev pub at_last : List Tick
  at_last = (moments (end_of tick act 0 script)).meanwhile

  -- A vehicle client that is started for a self test, by any options and paths in any order whose
  -- last path is that of a file that is there and holds a configuration with a positive heartbeat
  -- interval, and that is not asked to stop, exits with the code 0, whatever the other threads have done
  -- before, if behind the last step of the test at least one round of the camera, three rounds of the
  -- telemetry and one of the heartbeat take place.
  pub vehicle_self_test_passes :
      (line : List Argument) (config : RuntimeConfig)
      → AllSpelled line
      → (meant CommandLine.default line).self_test ≡ true
      → ((meant CommandLine.default line).config_path == "") ≡ false
      → exists (meant CommandLine.default line).config_path ≡ true
      → load_config (open_file (meant CommandLine.default line).config_path) default ≡ some config
      → ((n : ℕ) → (moments n).stop_requested ≡ false)
      → ltb 0 config.heartbeat_interval_ms ≡ true
      → 1 ≤ cameras at_last
      → 3 ≤ telemetries at_last
      → 1 ≤ heartbeats at_last
      → main exists open_file moments (spelled line) ≡ 0
  vehicle_self_test_passes line config p tested named there loaded unstopped positive c t h =
      let (last, ended, same, exits) =
        vehicle_self_test_exits exists open_file moments line config p tested named there loaded
          unstopped in
      let (before, e) = perform-ticks tick act moments 0 started script last ended in
      let connected : before.peer_connected ≡ true =
        sym (ticks-peer before at_last)
        ∙ sym (ap (λ (rt : RuntimeState). rt.peer_connected) e)
        ∙ ap (λ (rt : RuntimeState). rt.peer_connected) same in
      let timely : is_timely config last ≡ true =
        ap (is_timely config) e ∙ ticks-is_timely config before at_last connected positive c t h in
      exits ∙ ground (arith, timely)
