-- ===== src/Webrtc/Delivery/Received.antt =====
-- What the manager of webrtc/webrtc_manager.cc makes of the texts that signaling/signaling_client.cc
-- receives.
use whl_air.Base.{String, Option, none, List, [], ◌∷◌}
use whl_air.Signaling.Message.{SignalMessage}
use whl_air.Signaling.Numbers.{IsInt}
use whl_air.Signaling.Pieces.{IsPlain}
use whl_air.Signaling.Serialize.{serialize_signal_message}
use whl_air.Signaling.Client.{IWebsocket, on_message}
use whl_air.Signaling.Client as Socket
use whl_air.Webrtc.Interfaces.{IPeerConnection, ISignalingClient}
use whl_air.Webrtc.Manager.{Manager, PendingRemoteCandidate}
use whl_air.Webrtc.Delivery.{hand_over, candidate_signal}

-- A candidate that the format of the messages can carry.
pub record IsPlainCandidate (c : PendingRemoteCandidate) : Type 0 where
  pub candidate_plain : IsPlain c.candidate
  pub mid_plain : IsPlain c.sdp_mid
  pub index_int : IsInt c.sdp_mline_index

abbrev pub AllPlain : List PendingRemoteCandidate → Type 0
AllPlain [] = Unit
AllPlain (c ∷ rest) = IsPlainCandidate c × AllPlain rest

module _ {net : IPeerConnection} {sig : ISignalingClient} {ws : IWebsocket}
    (d : Socket.Client ws) where
  -- The manager after its client has received a text.
  pub receive_text : Manager net sig → SignalMessage → Option net.Pc → Manager net sig
  receive_text b msg created = hand_over b (on_message d (serialize_signal_message msg)) created

  pub receive_texts : String → Manager net sig → List PendingRemoteCandidate → Manager net sig
  receive_texts peer b [] = b
  receive_texts peer b (c ∷ rest) =
      receive_texts peer (receive_text b (candidate_signal peer c) none) rest
