-- ===== src/Cockpit/App/Verdict.antt =====
-- The verdict of run_self_test in cockpit_client/cockpit_client_app.cc.
use whl_air.Base.{ℕ, String, ◌+◌, ◌≤◌, ◌≡◌, ap, ◌∙◌, ltb, Bool, false, ◌&&◌, none, some, arith}
use whl_air.Cockpit.Clients
use whl_air.Cockpit.Commands
use whl_air.Cockpit.Runtime.{
  RuntimeState, apply_command, transition, acknowledge, count_command, push_state, safe_stop,
  on_ws_connected, on_ws_disconnected, on_peer_connected, on_peer_disconnected, on_network_down,
  on_network_up, on_heartbeat_lost,
}
use whl_air.Cockpit.App.{
  ws_connected, ws_disconnected, peer_connected, peer_disconnected, network_down, network_up,
  heartbeat_lost, command, status_update, telemetry_tick, heartbeat_tick, step,
  publish_status_update, telemetry_round, heartbeat_round,
}
use whl_air.SelfTest.{Moment, perform, performed, count-perform, added_by, from_cursor}
use whl_air.Cockpit.App.SelfTest.{
  Tick, tick, Action, wait, event, ws_message, input, act, script, ok, run_self_test,
}
use whl_air.Cockpit.App.Quiet.{core, core-tick, core-act, quiet-script, ready, final}

-- What depends on the other threads: the heartbeat and the telemetry have run, the telemetry while a
-- session was connected, and once of them with a web socket client.
abbrev pub is_timely : RuntimeState → Bool
is_timely rt = ltb 0 rt.heartbeats && ltb 2 rt.telemetry_received && ltb 0 rt.telemetry_broadcasts

-- A state with the counters of another one.
abbrev restore : RuntimeState → RuntimeState → RuntimeState
restore rt c = record c {
  stats = record c.stats {
    heartbeats = rt.heartbeats;
    telemetry_received = rt.telemetry_received;
    telemetry_broadcasts = rt.telemetry_broadcasts;
    status_updates = rt.status_updates;
  };
}

ok-restore : (rt : RuntimeState) → 7 ≤ rt.status_updates → ok (restore rt final) ≡ is_timely rt
unfolding ok from_cursor Clients.size
ok-restore rt updates = ground arith

ok-final : (rt : RuntimeState) → core rt ≡ final → 7 ≤ rt.status_updates → ok rt ≡ is_timely rt
ok-final rt e updates = ap (λ c. ok (restore rt c)) e ∙ ok-restore rt updates

-- What a step adds to the status updates.
abbrev updates : Action → ℕ
updates (event status_update) = 1
updates _ = 0

updates-tick : (rt : RuntimeState) (t : Tick) → rt.status_updates ≤ (tick rt t).status_updates
unfolding tick heartbeat_round telemetry_round publish_status_update
updates-tick rt t = ground arith

updates-apply_command :
    (rt : RuntimeState) (source name : String)
    → rt.status_updates ≤ (apply_command rt source name).0.status_updates
unfolding apply_command acknowledge count_command transition safe_stop push_state
updates-apply_command rt source name = ground arith

updates-act :
    (rt : RuntimeState) (a : Action) → rt.status_updates + updates a ≤ (act rt a).0.status_updates
unfolding act step on_ws_connected on_ws_disconnected on_peer_connected on_peer_disconnected
    on_network_down on_network_up on_heartbeat_lost safe_stop push_state publish_status_update
    telemetry_round heartbeat_round Commands.handle_ws_message Commands.handle_input_command
    Commands.process_command
updates-act rt wait = omega arith
updates-act rt (event status_update) = ground arith
updates-act rt (event (command source name)) = omega (arith, updates-apply_command rt source name)
updates-act rt (event (ws_connected id)) = ground arith
updates-act rt (event (ws_disconnected id)) = ground arith
updates-act rt (event peer_connected) = ground arith
updates-act rt (event peer_disconnected) = ground arith
updates-act rt (event network_down) = ground arith
updates-act rt (event network_up) = ground arith
updates-act rt (event heartbeat_lost) = ground arith
updates-act rt (event heartbeat_tick) = ground arith
updates-act rt (event telemetry_tick) = ground arith
updates-act rt (ws_message raw) =
    omega (arith, updates-apply_command rt "web" (Commands.parse_web_command_name raw))
updates-act rt (input name) = omega (arith, updates-apply_command rt "input" name)

module _ (moments : ℕ → Moment Tick) (start : RuntimeState) where
  -- From the state of a connected session, up to the counters of the other threads, and unless a stop is
  -- requested, the self test comes to its last check, and its verdict is whether the heartbeat and
  -- telemetry threads have run often enough.
  pub cockpit_verdict_is_timely :
      core start ≡ ready
      → ((n : ℕ) → (moments n).stop_requested ≡ false)
      → (last : RuntimeState) × (perform tick act moments 0 start script ≡ some last)
        × (core last ≡ final)
        × (7 ≤ last.status_updates)
        × (run_self_test start moments ≡ is_timely last)
  unfolding run_self_test added_by
  cockpit_verdict_is_timely is_ready unstopped =
      let (last, ended, same) =
        performed tick act core core-tick core-act moments unstopped start script final
          (rw is_ready quiet-script) in
      let grown =
        count-perform tick act (λ (rt : RuntimeState). rt.status_updates) updates updates-tick
          updates-act moments 0 start script last ended in
      let enough : 7 ≤ last.status_updates = omega (arith, grown) in
      (
        last,
        ended,
        same,
        enough,
        ap (λ r. elim r [ none ↦ false | some end ↦ ok end ]) ended ∙ ok-final last same enough,
      )
