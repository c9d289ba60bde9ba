-- ===== src/Lib.antt =====
-- Verification of whl-air, the remote-driving system: a vehicle client and a cockpit client that
-- talk over WebRTC, found by way of a signaling server.
--
-- The parts and the files that model them (paths are the repository's):
--
-- - vehicle_client/domain/runtime_state.{h,cc}: Vehicle.Runtime. The mutex-protected RuntimeState
--   is a record, each event handler (OnPeerConnected, OnNetworkDown, ...) and ApplyCommand a
--   function on it, named in snake_case. Timeline is the list that PushMode and PushState keep.
-- - vehicle_client/vehicle_client_app.cc: Vehicle.App. The threads share one RuntimeState and
--   touch it only while they hold its mutex, so a run is a list of critical sections (Section) in
--   the order in which the lock was taken; `run started history` is any interleaving, and more.
-- - cockpit_client/domain/runtime_state.{h,cc} and cockpit_client/cockpit_client_app.cc:
--   Cockpit.Runtime and Cockpit.App, in the same way. Cockpit.Clients is the std::set of web
--   socket clients, Cockpit.Commands the parser of web commands, over Trim. Vehicle.Config and
--   Cockpit.Config are load_config of the two applications, over KeyValues: a file is the list of
--   its lines.
-- - signaling/signaling_message.{h,cc}: Signaling.Message (the struct and its type names),
--   Signaling.Serialize and Signaling.Deserialize (the two conversions), with Stoi for std::stoi.
--   Signaling.Scan is a search without positions to compare the parser's with, Signaling.Pieces
--   the text of a message as a list of its fields. Writable and RoundTrip are about a message that
--   goes through both conversions, Numbers is about the index of a candidate.
-- - signaling/signaling_client.cc: Signaling.Client. websocketpp is the parameter IWebsocket. A
--   result `none` of connect or destroy is a call of std::terminate; an event of the library is a
--   function of its own, and so is the end of the Asio thread (loop_ended). Threads.run takes
--   histories of these and of the application's calls, in which `run` of the library may return by
--   itself at any point (the event `ends`), as it does after a connection has ended, and at once
--   in a thread that is started after the library has been stopped.
-- - webrtc/webrtc_manager.{h,cc}: Webrtc.Manager, the state, with Lifecycle (init, start, stop),
--   Peers (the application's calls and the helpers), Signals (handleSignalingMessage), PeerEvents
--   (the handlers of peer connections and heartbeats), Handlers (registration), Invocations (the
--   invoke helpers) and Events (one step per critical section). Stopped, Teardown and Lost are
--   about the ends of the manager and of its peers, Broadcast about a message to all of them. Peer
--   connections and the signaling client are the interfaces of Webrtc.Interfaces: objects with a
--   state, whose callbacks come later as events. The signaling client of the repository can also
--   report an error from within sendSignal, which the interface does not have: init of the manager
--   leaves the client null and registers no handler with it, so that where such a report would go
--   is not in the source.
-- - webrtc/peer_connection.cc: Webrtc.PeerConnection, the class LibwebrtcPeerConnectionImpl, over
--   libwebrtc as the parameter Libwebrtc. Contract is an abstract machine for its local
--   descriptions, Origin says where the descriptions come from, and Skeleton is about the class as
--   it stands, whose init stores a null connection.
-- - webrtc/webrtc_manager.cc over signaling/signaling_client.cc: Webrtc.Delivery, with Received
--   about a manager whose handleSignalingMessage is the client's handler of messages.
-- - cockpit_client/drivers/{telemetry_handler.cc, websocket_video_sink.h}: Cockpit.Drivers, the
--   two classes that send to web clients. Telemetry and Video say what a client can read. The
--   server of cockpit_client/transport/transport_server.h has no implementation, so what is sent
--   is the result.
-- - the function run_self_test of the two applications: Vehicle.App.SelfTest and
--   Cockpit.App.SelfTest, a script of critical sections and commands over the shared SelfTest.
--   What the other threads do and whether a stop is requested before each step is a function of
--   the step's number (moments). Quiet compares a test with one that runs alone, Verdict says what
--   its end depends on.
-- - the functions main: Arguments (the loop over argv, which is the same in both), with
--   CommandLine for what a command line means, ExitCode, and Vehicle.Main and Cockpit.Main, over
--   the file system as a parameter. main of the cockpit contains the wait of its self test for a
--   session, so its result is an exit code or, while it waits on, none. Vehicle.Passes is about
--   the exit code 0.
-- - vehicle_client/sensors/{camera,chassis}.cc: Vehicle.Sensors, the thread that both sources
--   start and stop in the same way, with Camera, Chassis and, for histories of a camera, Faults.
--   Chassis.Loop is the update loop of the chassis source, over the arithmetic of the processor as
--   the parameter Chassis.Arithmetic.
--
-- Conventions. Counters, times (milliseconds) and speeds (whole metres per second; the code stores
-- 0 and 6) are natural numbers; an int that may be negative is Base.Int.ℤ. Counters do not wrap;
-- Vehicle.App.Tally has the bound below which the vehicle's counters stay in an int.
-- std::map<std::string, V> is StringMap.Map. A unique_ptr is an Option. An operation returns the
-- state after the locked part and the invocations of application handlers that follow it. What the
-- virtual createPeerConnection returns is an argument, since the class in the repository returns
-- null and is made to be overridden. All functions are structurally recursive. Fuel stands in two
-- places: the ten digits of a 32-bit int in Signaling.Serialize, and the wait of the cockpit's
-- self test for a session (Cockpit.App.Await), one unit for each look at the connection, which is
-- enough when connection_loop has gone on twice by the last look. Histories (Vehicle.App.run,
-- Cockpit.App.run, Webrtc.Manager.Events.run, Webrtc.PeerConnection.run,
-- Signaling.Client.Threads.run, Vehicle.Sensors.Faults.run, Vehicle.Sensors.Chassis.Loop.run) are
-- arbitrary finite lists of events, which include orders that the program never takes.
--
-- Not modelled: log output, signal handlers and sleeping times, the controller of the vehicle
-- (which only logs), drivers that are only declared, onTlsInit of the signaling client (which sets
-- options of the TLS library), the signaling server and the web display, tests.
mod Base
pub mod Timeline
pub mod StringMap
pub mod Stoi
pub mod Trim
pub mod KeyValues
pub mod SelfTest
pub mod Arguments
pub mod ExitCode
pub mod Vehicle
pub mod Cockpit
pub mod Signaling
pub mod Webrtc
pub mod Examples
