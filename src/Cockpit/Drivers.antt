-- ===== src/Cockpit/Drivers.antt =====
-- cockpit_client/drivers/: TelemetryHandler (telemetry_handler.cc) and WebSocketVideoSink
-- (websocket_video_sink.h). The server of cockpit_client/transport/transport_server.h is an interface
-- that nothing implements: what is sent to it is the result, and what it answers is used by neither.
pub mod Telemetry
pub mod Video
use whl_air.Base.{ℕ, ◌<>◌, String, Bool, true, false, Option, none, some, List, [], ◌∷◌}
use whl_air.Base.Int.{ℤ}
use whl_air.Signaling.Serialize.{to_string}
use whl_air.Vehicle.Sensors.Chassis.Loop.{Chassis}

-- An ITransportServer, by an id of the object; a null pointer is none.
abbrev pub Server : Type 0
Server = ℕ

pub data Target : Type 0 where
  one_client : ℕ → Target
  all_clients : Target

-- A call of sendWebSocketMessage or of sendToAllWebSocketClients.
pub record Send : Type 0 where
  pub server : Server
  pub target : Target
  pub message : String

pub record TelemetryHandler : Type 0 where
  pub transport_server : Option Server

abbrev pub created : TelemetryHandler
created = record { transport_server = none }

unfoldable pub init : TelemetryHandler → Option Server → TelemetryHandler × Bool
init h none = (h, false)
init h (some server) = (record { transport_server = some server }, true)

-- The dummy text of JSON; `shown` is std::to_string of a double, and the gear is an int of 32 bits.
unfoldable pub dummy_json {ℓ} : {W : Type ℓ} → (W → String) → Chassis W → String
unfolding to_string
dummy_json shown telemetry_data =
    "{ \"speed_mps\": "
    <> (shown telemetry_data.speed_mps
        <> (", \"gear\": " <> (to_string telemetry_data.gear <> " }")))

-- The message goes to the connection 1. The result is none for a call through a null pointer.
unfoldable pub process_incoming_telemetry {ℓ} :
    {W : Type ℓ} → (W → String) → TelemetryHandler → String → Chassis W → Option Send
unfolding dummy_json
process_incoming_telemetry shown h peer telemetry_data = elim h.transport_server [
  | none ↦ none
  | some server ↦
      some (record {
        server = server;
        target = one_client 1;
        message = dummy_json shown telemetry_data;
      })
]

pub record WebSocketVideoSink : Type 0 where
  pub transport_server : Option Server
  pub stream_id : String

-- OnFrame; `shown` is std::to_string of an int of 64 bits.
unfoldable pub on_frame : (ℤ → String) → WebSocketVideoSink → ℤ → List Send
on_frame shown sink timestamp_us = elim sink.transport_server [
  | none ↦ []
  | some server ↦
      record {
        server = server;
        target = all_clients;
        message =
            "VIDEO:"
            <> (sink.stream_id
                <> (":"
                    <> ("DUMMY_JPEG_DATA_" <> (sink.stream_id <> ("_" <> shown timestamp_us)))));
      }
      ∷ []
]
