-- ===== src/Examples/SelfTests.antt =====
-- Concrete command lines and self tests of the two clients.
use whl_air.Base.{
  arith, ℕ, ◌≤◌, String, ◌≡◌, refl, Bool, true, false, some, List, [], ◌∷◌, if◌then◌else◌,
}
use whl_air.StringMap
use whl_air.Arguments.CommandLine.{Argument, path, config, self_test, spelled}
use whl_air.SelfTest.{Moment, perform}
use whl_air.Vehicle.Config as VehicleConfig
use whl_air.Vehicle.Runtime as VehicleRuntime
use whl_air.Vehicle.App as VehicleApp
use whl_air.Vehicle.App.SelfTest as VehicleTest
use whl_air.Vehicle.App.Quiet as VehicleEnd
use whl_air.Vehicle.App.Verdict as VehicleVerdict
use whl_air.Vehicle.Main as VehicleMain
use whl_air.Vehicle.Passes.{vehicle_self_test_passes}
use whl_air.Cockpit.Config as CockpitConfig
use whl_air.Cockpit.Runtime as CockpitRuntime
use whl_air.Cockpit.App.SelfTest as CockpitTest
use whl_air.Cockpit.App.Quiet as CockpitEnd
use whl_air.Cockpit.App.Await as Wait
use whl_air.Cockpit.App.Verdict as CockpitVerdict
use whl_air.Cockpit.Main as CockpitMain

-- A command line: two paths, of which the second one counts, and the flag.
abbrev test : List Argument
test = path "v" "an.txt" ∷ config "car.txt" ∷ self_test ∷ []

-- Every file is there and empty.
abbrev there : String → Bool
there file = true

abbrev vehicle_moments : ℕ → Moment VehicleTest.Tick
vehicle_moments n = record {
  stop_requested = false;
  meanwhile = VehicleTest.camera ∷ VehicleTest.telemetry ∷ VehicleTest.heartbeat ∷ [];
}

abbrev cockpit_moments : ℕ → Moment CockpitTest.Tick
cockpit_moments n = record {
  stop_requested = false;
  meanwhile = CockpitTest.publish ∷ CockpitTest.telemetry ∷ CockpitTest.heartbeat ∷ [];
}

vehicle_loaded :
    VehicleConfig.load_config (some []) VehicleConfig.default ≡ some VehicleConfig.default
unfolding VehicleConfig.load_config StringMap.find
vehicle_loaded = refl

cockpit_loaded :
    CockpitConfig.load_config (some []) CockpitConfig.default ≡ some CockpitConfig.default
unfolding CockpitConfig.load_config StringMap.find
cockpit_loaded = refl

vehicle_self_test_exits_example :
    (last : VehicleRuntime.RuntimeState) × (perform VehicleTest.tick VehicleTest.act vehicle_moments
        0 VehicleApp.started VehicleTest.script
      ≡ some last)
    × (VehicleEnd.core last ≡ VehicleEnd.final)
    × (VehicleMain.main there (λ file. some []) vehicle_moments (spelled test)
        ≡ (if VehicleVerdict.is_timely VehicleConfig.default last then 0 else 5))
vehicle_self_test_exits_example =
    VehicleMain.vehicle_self_test_exits there (λ file. some []) vehicle_moments test
      VehicleConfig.default (refl, (tt, (tt, tt))) refl refl refl vehicle_loaded (λ n. refl)

-- Three rounds of the telemetry fall behind each step.
abbrev busy_moments : ℕ → Moment VehicleTest.Tick
busy_moments n = record {
  stop_requested = false;
  meanwhile =
      VehicleTest.telemetry ∷ VehicleTest.telemetry ∷ VehicleTest.camera ∷ VehicleTest.heartbeat
      ∷ VehicleTest.telemetry ∷ [];
}

vehicle_self_test_passes_example :
    VehicleMain.main there (λ file. some []) busy_moments (spelled test) ≡ 0
vehicle_self_test_passes_example =
    vehicle_self_test_passes there (λ file. some []) busy_moments test VehicleConfig.default
      (refl, (tt, (tt, tt))) refl refl refl vehicle_loaded (λ n. refl) refl (omega arith)
      (omega arith) (omega arith)

-- connection_loop goes on once at each of the first two moments.
abbrev polls : ℕ → Moment Wait.Other
polls n = record {
  stop_requested = false;
  meanwhile = Wait.proceeds ∷ Wait.round CockpitTest.heartbeat ∷ [];
}

twice : 2 ≤ Wait.steps_from polls 1 0
unfolding Wait.steps_from Wait.steps_of
twice = omega arith

cockpit_self_test_exits_example :
    (w : Wait.Session) × (last : CockpitRuntime.RuntimeState) × (Wait.await 2 polls 0 Wait.opened
      ≡ some w)
    × (perform CockpitTest.tick CockpitTest.act cockpit_moments 0 w.runtime CockpitTest.script
        ≡ some last)
    × (CockpitEnd.core last ≡ CockpitEnd.final)
    × (7 ≤ last.status_updates)
    × (CockpitMain.main there (λ file. some []) 2 polls cockpit_moments (spelled test)
        ≡ some (if CockpitVerdict.is_timely last then 0 else 5))
cockpit_self_test_exits_example =
    CockpitMain.cockpit_self_test_exits there (λ file. some []) polls cockpit_moments test
      CockpitConfig.default 1 (refl, (tt, (tt, tt))) refl refl refl cockpit_loaded (λ n. refl) twice
      (λ n. refl)
