-- ===== src/Examples/Wire.antt =====
-- Concrete messages on the wire, from one manager to another.
use whl_air.Base.{ℕ, String, ◌<>◌, ◌≡◌, refl, arith, true, false, none, some, List, [], ◌∷◌, ◌++◌}
use whl_air.Base.Int.{pos, negsuc}
use whl_air.Signaling.Message.{SignalMessage, message, candidate}
use whl_air.Signaling.Serialize.{serialize_signal_message}
use whl_air.Signaling.Deserialize.{find_quoted_value, find_int_value, deserialize_signal_message}
use whl_air.Signaling.Scan.{quoted_value, int_value}
use whl_air.Signaling.Scan.Equivalence.{searches_agree}
use whl_air.Signaling.Pieces.Fields.{written-IsPlain}
use whl_air.Signaling.RoundTrip.{deserialize-serialize}
use whl_air.Signaling.Writable.{IsWritable, writable_survives}
use whl_air.Signaling.Client.{IWebsocket, Client, ok, new}
use whl_air.Webrtc.Interfaces.{IPeerConnection, ISignalingClient, connected}
use whl_air.Webrtc.Manager as Webrtc
use whl_air.Webrtc.Manager.{Manager, PendingRemoteCandidate, running}

-- Two numbers of one name: the first counts.
abbrev twice : String
twice = "{\"type\":\"offer\",\"n\":12,\"n\":13}"

searches_agree_example :
    (find_quoted_value twice "n" ≡ quoted_value twice "n")
    × (find_int_value twice "n" ≡ int_value twice "n")
searches_agree_example = searches_agree twice "n"

abbrev nominated : SignalMessage
nominated = record (message candidate "car" "cockpit") {
  candidate = some "candidate:1 1 udp 2130706431 10.0.0.2 50000 typ host";
  sdp_mid = some "0";
  sdp_mline_index = some (negsuc 2147483647);
  reason = some "type:";
}

nominated-IsWritable : IsWritable nominated
nominated-IsWritable = record {
  from_plain = written-IsPlain "car" refl;
  to_plain = written-IsPlain "cockpit" refl;
  sdp_plain = tt;
  candidate_plain = written-IsPlain "candidate:1 1 udp 2130706431 10.0.0.2 50000 typ host" refl;
  mid_plain = written-IsPlain "0" refl;
  index_int = omega arith;
  reason_plain = written-IsPlain "type:" refl;
  carried = tt;
}

writable_survives_example :
    deserialize_signal_message (serialize_signal_message nominated) ≡ some nominated
writable_survives_example = writable_survives nominated nominated-IsWritable

-- A description with quotes, which reads like further fields.
abbrev quoting : SignalMessage
quoting = record (message candidate "car" "cockpit") { sdp = some "v=0\",\"type\":\"offer" }

deserialize-serialize_example :
    (got : SignalMessage) × (deserialize_signal_message (serialize_signal_message quoting)
      ≡ some got)
    × (got.type ≡ candidate)
    × (got.from ≡ "car")
    × (got.to ≡ "cockpit")
deserialize-serialize_example =
    deserialize-serialize quoting (written-IsPlain "car" refl) (written-IsPlain "cockpit" refl)

-- A library that keeps the texts that it is given.
abbrev keeping : IWebsocket
keeping = record {
  Ws = List String;
  Hdl = ℕ;
  no_hdl = 0;
  get_connection = λ ws uri. ok 1;
  connect = λ ws hdl. ws;
  stop = λ ws. ws;
  close = λ ws hdl. ws;
  is_open = λ ws hdl. some true;
  send = λ ws hdl text. (ws ++ text ∷ [], none);
  get_ec = λ ws hdl. none;
  lookup_error = λ ws hdl. none;
}

abbrev logging : IPeerConnection
logging = record {
  Pc = List String;
  create_offer = λ log. (log ++ "create_offer" ∷ [], true);
  create_answer = λ log. (log ++ "create_answer" ∷ [], true);
  set_remote_description = λ log kind sdp. (log ++ ("set " <> kind) ∷ [], true);
  add_remote_candidate = λ log text mid index. (log ++ ("add " <> text) ∷ [], true);
  send_data = λ log label bytes. (log ++ ("send " <> label) ∷ [], true);
  close = λ log. log ++ "close" ∷ [];
  get_connection_state = λ log. connected;
}

abbrev silent : ISignalingClient
silent = record { Client = Unit; connect = λ c. c; disconnect = λ c. c; send_signal = λ c msg. c }

abbrev connected_client : Client keeping
connected_client = record (new keeping [] "wss://host" "secret") {
  is_running = true;
  joinable = true;
  on_message_received_handler = some 5;
}

abbrev host : PendingRemoteCandidate
host = record { candidate = "host"; sdp_mid = "0"; sdp_mline_index = pos 0 }

-- The manager of the car, which waits for the description of its caller.
abbrev callee : Manager logging (silent)
callee = record (Webrtc.new logging (silent)) {
  state = running;
  peer_connections = ("client_dummy_id", some []) ∷ [];
  remote_description_set = ("client_dummy_id", false) ∷ [];
}
