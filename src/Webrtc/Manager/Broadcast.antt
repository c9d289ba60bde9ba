-- ===== src/Webrtc/Manager/Broadcast.antt =====
-- sendDataChannelMessageToAllPeers of webrtc/webrtc_manager.cc, peer by peer.
use whl_air.Base.{
  String, ◌≡◌, ◌⊎◌, inl, inr, subst⁻¹, refl, Bool, true, ◌||◌, false, Option, none, some, [], ◌∷◌,
  arith,
}
use whl_air.StringMap.{Map, find}
use whl_air.Webrtc.Interfaces.{IPeerConnection, ISignalingClient, DataChannelMessage}
use whl_air.Webrtc.Manager.{Manager}
use whl_air.Webrtc.Manager.Lifecycle.{is_running}
use whl_air.Webrtc.Manager.Peers.{send_all, send_data_channel_message_to_all_peers}

module _ (net : IPeerConnection) (label : String) (bytes : DataChannelMessage) where
  -- What a peer's entry becomes: an object has sent the message.
  abbrev pub sent : Option (Option net.Pc) → Option (Option net.Pc)
  sent none = none
  sent (some none) = some none
  sent (some (some pc)) = some (some (net.send_data pc label bytes).0)

  find-send_all :
      (peers : Map (Option net.Pc)) (peer : String)
      → find peer (send_all net label bytes peers).0 ≡ sent (find peer peers)
  unfolding find send_all
  find-send_all [] peer = refl
  find-send_all ((j, none) ∷ rest) peer = ground (arith, find-send_all rest peer)
  find-send_all ((j, some pc) ∷ rest) peer = ground (arith, find-send_all rest peer)

  -- Some object of the map accepts the message.
  pub AnyAccepts : Map (Option net.Pc) → Type 0
  AnyAccepts [] = ⊥
  AnyAccepts ((peer, none) ∷ rest) = AnyAccepts rest
  AnyAccepts ((peer, some pc) ∷ rest) = ((net.send_data pc label bytes).1 ≡ true) ⊎ AnyAccepts rest

  -- Every object of the map refuses it.
  pub AllRefuse : Map (Option net.Pc) → Type 0
  AllRefuse [] = Unit
  AllRefuse ((peer, none) ∷ rest) = AllRefuse rest
  AllRefuse ((peer, some pc) ∷ rest) = ((net.send_data pc label bytes).1 ≡ false) × AllRefuse rest

  -- What it means that a broadcast returns true or false.
  pub IsTold : Map (Option net.Pc) → Bool → Type 0
  IsTold peers true = AnyAccepts peers
  IsTold peers false = AllRefuse peers

  IsTold-one :
      (j : String) (pc : net.Pc) (rest : Map (Option net.Pc)) (now later : Bool)
      → (net.send_data pc label bytes).1 ≡ now
      → IsTold rest later
      → IsTold ((j, some pc) ∷ rest) (now || later)
  unfolding IsTold AnyAccepts AllRefuse
  IsTold-one j pc rest true later e t = inl e
  IsTold-one j pc rest false true e t = inr t
  IsTold-one j pc rest false false e t = (e, t)

  IsTold-none :
      (j : String) (rest : Map (Option net.Pc)) (any : Bool)
      → IsTold rest any
      → IsTold ((j, none) ∷ rest) any
  unfolding IsTold AnyAccepts AllRefuse
  IsTold-none j rest true t = t
  IsTold-none j rest false t = t

  send_all-IsTold : (peers : Map (Option net.Pc)) → IsTold peers (send_all net label bytes peers).1
  unfolding send_all IsTold AllRefuse
  send_all-IsTold [] = tt
  send_all-IsTold ((j, none) ∷ rest) = IsTold-none j rest _ (send_all-IsTold rest)
  send_all-IsTold ((j, some pc) ∷ rest) = IsTold-one j pc rest _ _ refl (send_all-IsTold rest)

module _ {net : IPeerConnection} {sig : ISignalingClient} (m : Manager net sig) (label : String)
    (bytes : DataChannelMessage) where
  taken :
      is_running m.state ≡ true
      → send_data_channel_message_to_all_peers m label bytes ≡ (
        record m { peer_connections = (send_all net label bytes m.peer_connections).0 },
        (send_all net label bytes m.peer_connections).1,
      )
  unfolding send_data_channel_message_to_all_peers
  taken runs = ground arith

  -- In a running manager a broadcast has every object that the manager holds send the message once,
  -- whether others refuse it or not, and adds and removes none; it returns true only if one of them has
  -- accepted the message, and false only if all have refused it.
  pub broadcast_reaches_all :
      (peer : String)
      → is_running m.state ≡ true
      → let (next, any) = send_data_channel_message_to_all_peers m label bytes in
        (find peer next.peer_connections ≡ sent net label bytes (find peer m.peer_connections))
        × IsTold net label bytes m.peer_connections any
  broadcast_reaches_all peer runs =
      subst⁻¹
        (λ (r : Manager net sig × Bool).
          (find peer r.0.peer_connections ≡ sent net label bytes (find peer m.peer_connections))
          × IsTold net label bytes m.peer_connections r.1)
        (taken runs)
        (
          find-send_all net label bytes m.peer_connections peer,
          send_all-IsTold net label bytes m.peer_connections,
        )
