-- ===== src/Webrtc/Delivery.antt =====
-- The managers of webrtc/webrtc_manager.cc over the client of signaling/signaling_client.cc: what one
-- manager sends, and what another does when it receives that as a text.
pub mod Received
use whl_air.Base.{
  String, ◌≡◌, refl, ap, ◌∙◌, true, false, Option, none, some, List, [], ◌∷◌, ◌++◌, arith, eq_iff,
  if◌then◌else◌,
}
use whl_air.Base.Int.{ℤ}
use whl_air.StringMap
use whl_air.StringMap.{find, find-insert}
use whl_air.Signaling.Message.{SignalMessage, message, offer, answer, candidate}
use whl_air.Signaling.Numbers.{IsInt}
use whl_air.Signaling.Pieces.{IsPlain}
use whl_air.Signaling.Pieces.Fields.{written-IsPlain}
use whl_air.Webrtc.Manager.Candidates.{
  receive_candidates, candidate_message, offer_message, IsDescribed, offer_adds_buffered,
}
use whl_air.Signaling.Serialize.{serialize_signal_message}
use whl_air.Signaling.Deserialize.{deserialize_signal_message}
use whl_air.Signaling.Writable.{IsWritable, writable_survives}
use whl_air.Signaling.Client.{IWebsocket, Report, message_received, on_message}
use whl_air.Signaling.Client as Socket
use whl_air.Webrtc.Interfaces.{IPeerConnection, ISignalingClient}
use whl_air.Webrtc.Manager.{Manager, PendingRemoteCandidate}
use whl_air.Webrtc.Manager.Peers.{hold}
use whl_air.Webrtc.Manager.Signals.{handle_signaling_message, described, add_all, pending_of}
use whl_air.Webrtc.Manager.PeerEvents.{
  send_signal, handle_peer_local_sdp_generated, handle_peer_local_candidate_generated,
}

module _ {net : IPeerConnection} {sig : ISignalingClient} where
  -- The reports of a client for which handleSignalingMessage is the handler of messages.
  pub hand_over : Manager net sig → List Report → Option net.Pc → Manager net sig
  hand_over m [] created = m
  hand_over m (message_received handler msg ∷ rest) created =
      hand_over (handle_signaling_message m msg created).0 rest created
  hand_over m (_ ∷ rest) created = hand_over m rest created

-- What the manager sends for its peers' descriptions and candidates.
abbrev pub sdp_signal : String → String → SignalMessage
sdp_signal peer sdp = record (message offer "client_dummy_id" peer) { sdp = some sdp }

abbrev pub candidate_signal : String → PendingRemoteCandidate → SignalMessage
candidate_signal peer c = record (message candidate "client_dummy_id" peer) {
  candidate = some c.candidate;
  sdp_mid = some c.sdp_mid;
  sdp_mline_index = some c.sdp_mline_index;
}
