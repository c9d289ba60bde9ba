-- ===== src/Cockpit/Main.antt =====
-- main of cockpit_client/cockpit_client_app.cc.
use whl_air.Base.{
  ℕ, suc, ◌≤◌, String, ◌≡◌, ◌∙◌, ◌==◌, Bool, true, false, Option, none, some, List, arith,
  if◌then◌else◌,
}
use whl_air.Arguments as CommandLine
use whl_air.Arguments.CommandLine.{Argument, AllSpelled, spelled, meant}
use whl_air.ExitCode.{exit_code, exit_code-spelled, outcome, verdict}
use whl_air.SelfTest.{Moment, perform}
use whl_air.Cockpit.Config.{RuntimeConfig, default, load_config}
use whl_air.Cockpit.Runtime.{RuntimeState}
use whl_air.Cockpit.App.SelfTest.{Tick, tick, act, script, run_self_test}
use whl_air.Cockpit.App.Quiet.{core, final}
use whl_air.Cockpit.App.Await.{Other, Session, opened, await, steps_from, wait_ends}
use whl_air.Cockpit.App.Verdict.{is_timely, cockpit_verdict_is_timely}

-- The whole of run_self_test, with fuel for the wait: what the other threads do before each look at the
-- connection, and what they do after the wait. The result is none where the wait has not ended.
unfoldable pub wait_and_test : ℕ → (ℕ → Moment Other) → (ℕ → Moment Tick) → Option ℕ
unfolding await run_self_test
wait_and_test fuel polls moments = elim (await fuel polls 0 opened) [
  | none ↦ none
  | some w ↦ some (verdict (run_self_test w.runtime moments))
]

-- With the file system, whose files are lists of lines and none where they cannot be opened, and what
-- a self test needs. The result is none where a self test waits on.
unfoldable pub main :
    (String → Bool)
    → (String → Option (List String))
    → ℕ
    → (ℕ → Moment Other)
    → (ℕ → Moment Tick)
    → List String
    → Option ℕ
unfolding exit_code wait_and_test
main exists open_file fuel polls moments args =
    exit_code some exists (λ path. load_config (open_file path) default)
      (λ config. wait_and_test fuel polls moments) args

module _ (exists : String → Bool) (open_file : String → Option (List String))
    (polls : ℕ → Moment Other) (moments : ℕ → Moment Tick) where
  -- A cockpit client that is started for a self test, by any options and paths in any order whose
  -- last path is that of a file that is there and holds a configuration, that is not asked to stop, and
  -- whose connection_loop goes on at least twice in k looks at the connection, waits for the session no
  -- longer than these and one more, never fails at a command and comes to the last check of the test,
  -- whatever rounds of the other threads fall in between. It then is in the state `final` but for those
  -- threads' counters and the number of status updates, which is at least seven, and main returns 0 if
  -- the counters show that the heartbeat and telemetry threads have run often enough, and 5 otherwise:
  -- none of the eighteen other checks can fail.
  pub cockpit_self_test_exits :
      (line : List Argument) (config : RuntimeConfig) (k : ℕ)
      → AllSpelled line
      → (meant CommandLine.default line).self_test ≡ true
      → ((meant CommandLine.default line).config_path == "") ≡ false
      → exists (meant CommandLine.default line).config_path ≡ true
      → load_config (open_file (meant CommandLine.default line).config_path) default ≡ some config
      → ((n : ℕ) → (polls n).stop_requested ≡ false)
      → 2 ≤ steps_from polls k 0
      → ((n : ℕ) → (moments n).stop_requested ≡ false)
      → (w : Session) × (last : RuntimeState) × (await (suc k) polls 0 opened ≡ some w)
        × (perform tick act moments 0 w.runtime script ≡ some last)
        × (core last ≡ final)
        × (7 ≤ last.status_updates)
        × (main exists open_file (suc k) polls moments (spelled line)
            ≡ some (if is_timely last then 0 else 5))
  unfolding main outcome wait_and_test
  cockpit_self_test_exits line config k p tested named there loaded calm far unstopped =
      let (w, waited, is_ready) = wait_ends polls k calm far in
      let (last, ended, same, enough, judged) =
        cockpit_verdict_is_timely moments w.runtime is_ready unstopped in
      let exits =
        exit_code-spelled some exists (λ path. load_config (open_file path) default)
          (λ c. wait_and_test (suc k) polls moments) line config p named there loaded in
      (w, last, waited, ended, same, enough, exits ∙ ground (arith, tested, waited, judged))
