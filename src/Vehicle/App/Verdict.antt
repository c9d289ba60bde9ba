-- ===== src/Vehicle/App/Verdict.antt =====
-- The verdict of run_self_test in vehicle_client/vehicle_client_app.cc.
use whl_air.Base.{ℕ, ◌≡◌, ap, ◌∙◌, ltb, eqb, Bool, false, ◌&&◌, none, some, arith, if◌then◌else◌}
use whl_air.Vehicle.Config.{RuntimeConfig}
use whl_air.Vehicle.Runtime.{RuntimeState}
use whl_air.Vehicle.App.{started}
use whl_air.SelfTest.{Moment, perform, performed, from_cursor}
use whl_air.Vehicle.App.SelfTest.{Tick, tick, act, script, ok, run_self_test}
use whl_air.Vehicle.App.Quiet.{core, core-tick, core-act, quiet-script, final}

-- What depends on the other threads: each of them has run, and the camera and the telemetry have run
-- with a peer.
abbrev pub is_timely : RuntimeConfig → RuntimeState → Bool
is_timely config rt =
    ltb 0 rt.camera_frames
    && ltb 0 rt.video_frames_sent
    && ltb 2 rt.telemetry_messages
    && ltb 0 rt.telemetry_sent
    && (if ltb 0 config.heartbeat_interval_ms
        then ltb 0 rt.heartbeat_messages
        else eqb rt.heartbeat_messages 0)

-- A state with the counters of another one.
abbrev restore : RuntimeState → RuntimeState → RuntimeState
restore rt c = record c {
  stats = record c.stats {
    camera_frames = rt.camera_frames;
    video_frames_sent = rt.video_frames_sent;
    telemetry_messages = rt.telemetry_messages;
    telemetry_sent = rt.telemetry_sent;
    heartbeat_messages = rt.heartbeat_messages;
  };
}

ok-restore :
    (config : RuntimeConfig) (rt : RuntimeState)
    → ok config (restore rt final) ≡ is_timely config rt
unfolding ok from_cursor
ok-restore config rt = ground arith

ok-final :
    (config : RuntimeConfig) (rt : RuntimeState)
    → core rt ≡ final
    → ok config rt ≡ is_timely config rt
ok-final config rt e = ap (λ c. ok config (restore rt c)) e ∙ ok-restore config rt

module _ (config : RuntimeConfig) (moments : ℕ → Moment Tick) where
  -- Unless a stop is requested, the self test of the vehicle never fails at a command and comes to its
  -- last check, whatever rounds of the other threads fall in between; and its verdict is then exactly
  -- whether the camera, telemetry and heartbeat threads have run often enough, so that none of the
  -- fifteen other checks can fail. The state in which it ends is `final` but for those threads'
  -- counters.
  pub vehicle_verdict_is_timely :
      ((n : ℕ) → (moments n).stop_requested ≡ false)
      → (last : RuntimeState) × (perform tick act moments 0 started script ≡ some last)
        × (core last ≡ final)
        × (run_self_test config moments ≡ is_timely config last)
  unfolding run_self_test
  vehicle_verdict_is_timely unstopped =
      let (last, ended, same) =
        performed tick act core core-tick core-act moments unstopped started script final
          quiet-script in
      (
        last,
        ended,
        same,
        ap (λ r. elim r [ none ↦ false | some end ↦ ok config end ]) ended
            ∙ ok-final config last same,
      )
