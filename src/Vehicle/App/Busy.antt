-- ===== src/Vehicle/App/Busy.antt =====
-- The counters of the background threads of vehicle_client/vehicle_client_app.cc over some rounds.
use whl_air.Base.{ℕ, ◌+◌, ◌≤◌, ◌≡◌, refl, true, ltb, List, [], ◌∷◌, arith}
use whl_air.SelfTest.{ticks}
use whl_air.Vehicle.Config.{RuntimeConfig}
use whl_air.Vehicle.Runtime.{RuntimeState}
use whl_air.Vehicle.App.{camera_round, telemetry_round, heartbeat_round}
use whl_air.Vehicle.App.SelfTest.{Tick, camera, telemetry, heartbeat, tick}
use whl_air.Vehicle.App.Verdict.{is_timely}

-- How many rounds of each thread there are.
abbrev pub cameras : List Tick → ℕ
cameras [] = 0
cameras (camera ∷ rest) = 1 + cameras rest
cameras (telemetry ∷ rest) = cameras rest
cameras (heartbeat ∷ rest) = cameras rest

abbrev pub telemetries : List Tick → ℕ
telemetries [] = 0
telemetries (camera ∷ rest) = telemetries rest
telemetries (telemetry ∷ rest) = 1 + telemetries rest
telemetries (heartbeat ∷ rest) = telemetries rest

abbrev pub heartbeats : List Tick → ℕ
heartbeats [] = 0
heartbeats (camera ∷ rest) = heartbeats rest
heartbeats (telemetry ∷ rest) = heartbeats rest
heartbeats (heartbeat ∷ rest) = 1 + heartbeats rest

-- The counters have grown by these numbers.
record HasRun (rt next : RuntimeState) (l : List Tick) : Type 0 where
  frames : rt.camera_frames + cameras l ≡ next.camera_frames
  sent : rt.video_frames_sent + cameras l ≡ next.video_frames_sent
  messages : rt.telemetry_messages + telemetries l ≡ next.telemetry_messages
  telemetry_sent : rt.telemetry_sent + telemetries l ≡ next.telemetry_sent
  beats : rt.heartbeat_messages + heartbeats l ≡ next.heartbeat_messages

ticks-HasRun :
    (rt : RuntimeState) (l : List Tick) → rt.peer_connected ≡ true → HasRun rt (ticks tick rt l) l
unfolding ticks tick camera_round telemetry_round heartbeat_round
ticks-HasRun rt [] p = record {
  frames = omega arith;
  sent = omega arith;
  messages = omega arith;
  telemetry_sent = omega arith;
  beats = omega arith;
}
ticks-HasRun rt (camera ∷ rest) p =
    let h = ticks-HasRun (camera_round rt) rest p in
    record {
      frames = ground (arith, h.frames);
      sent = ground (arith, p, h.sent);
      messages = ground (arith, h.messages);
      telemetry_sent = ground (arith, h.telemetry_sent);
      beats = ground (arith, h.beats);
    }
ticks-HasRun rt (telemetry ∷ rest) p =
    let h = ticks-HasRun (telemetry_round rt) rest p in
    record {
      frames = ground (arith, h.frames);
      sent = ground (arith, h.sent);
      messages = ground (arith, h.messages);
      telemetry_sent = ground (arith, p, h.telemetry_sent);
      beats = ground (arith, h.beats);
    }
ticks-HasRun rt (heartbeat ∷ rest) p =
    let h = ticks-HasRun (heartbeat_round rt) rest p in
    record {
      frames = ground (arith, h.frames);
      sent = ground (arith, h.sent);
      messages = ground (arith, h.messages);
      telemetry_sent = ground (arith, h.telemetry_sent);
      beats = ground (arith, h.beats);
    }

-- Enough rounds with a peer make the verdict.
pub ticks-is_timely :
    (config : RuntimeConfig) (rt : RuntimeState) (l : List Tick)
    → rt.peer_connected ≡ true
    → ltb 0 config.heartbeat_interval_ms ≡ true
    → 1 ≤ cameras l
    → 3 ≤ telemetries l
    → 1 ≤ heartbeats l
    → is_timely config (ticks tick rt l) ≡ true
ticks-is_timely config rt l p positive c t h =
    let r = ticks-HasRun rt l p in
    ground (arith, positive, r.frames, r.sent, r.messages, r.telemetry_sent, r.beats)

pub ticks-peer :
    (rt : RuntimeState) (l : List Tick) → (ticks tick rt l).peer_connected ≡ rt.peer_connected
unfolding ticks tick camera_round telemetry_round heartbeat_round
ticks-peer rt [] = refl
ticks-peer rt (camera ∷ rest) = ticks-peer (camera_round rt) rest
ticks-peer rt (telemetry ∷ rest) = ticks-peer (telemetry_round rt) rest
ticks-peer rt (heartbeat ∷ rest) = ticks-peer (heartbeat_round rt) rest
