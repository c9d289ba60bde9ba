-- ===== src/Webrtc/Manager/Stopped.antt =====
-- stop of webrtc/webrtc_manager.cc, and what can be asked of a manager after it.
use mathlib.Core.Option
use whl_air.Base.{
  String, ◌≡◌, refl, ap, subst⁻¹, ◌∙◌, Bool, false, true, ◌||◌, Option, none, some, List, [], ◌∷◌,
  ◌⊎◌, arith,
}
use whl_air.StringMap.{Map}
use whl_air.Webrtc.Interfaces.{IPeerConnection, ISignalingClient, DataChannelMessage}
use whl_air.Webrtc.Manager.{Manager, running, initialized, stopping, stopped}
use whl_air.Webrtc.Manager.Lifecycle.{init, start, stop, stop_begin, stop_locked, close_all}
use whl_air.Webrtc.Manager.Peers.{
  connect_to_peer, send_data_channel_message, send_data_channel_message_to_all_peers,
}
use whl_air.Webrtc.Manager.Teardown.{IsRefusing, stopped-IsRefusing}

-- What an application may ask for.
pub data Request (net : IPeerConnection) : Type 0 where
  inits starts stops : Request net
  connects : String → Option net.Pc → Request net
  sends : String → String → DataChannelMessage → Request net
  broadcasts : String → DataChannelMessage → Request net

-- The objects of the map after `Close`, each once and in the map's order.
pub AreClosed : (net : IPeerConnection) → Map (Option net.Pc) → List net.Pc → Type 0
AreClosed net [] [] = Unit
AreClosed net [] (c ∷ closed) = ⊥
AreClosed net ((peer, none) ∷ rest) closed = AreClosed net rest closed
AreClosed net ((peer, some pc) ∷ rest) [] = ⊥
AreClosed net ((peer, some pc) ∷ rest) (c ∷ closed) = (c ≡ net.close pc) × AreClosed net rest closed

close_all-AreClosed :
    (net : IPeerConnection) (peers : Map (Option net.Pc))
    → AreClosed net peers (close_all net peers)
unfolding AreClosed close_all
close_all-AreClosed net [] = tt
close_all-AreClosed net ((peer, none) ∷ rest) = close_all-AreClosed net rest
close_all-AreClosed net ((peer, some pc) ∷ rest) = (refl, close_all-AreClosed net rest)

disconnected_client :
    (sig : ISignalingClient) (client : Option sig.Client)
    → elim client [ none ↦ none | some c ↦ some (sig.disconnect c) ]
      ≡ Option.map sig.disconnect client
disconnected_client sig none = refl
disconnected_client sig (some c) = refl

abbrev has_some : {A : Type 0} → List A → Bool
has_some [] = false
has_some (a ∷ rest) = true

module _ {net : IPeerConnection} {sig : ISignalingClient} where
  -- The manager after a request, and whether it was accepted; of stop, whether it closed anything.
  unfoldable pub ask : Manager net sig → Request net → Manager net sig × Bool
  ask m inits = init m
  ask m starts = start m
  ask m stops = ((stop m).0, has_some (stop m).1)
  ask m (connects peer created) = connect_to_peer m peer created
  ask m (sends peer label bytes) = send_data_channel_message m peer label bytes
  ask m (broadcasts label bytes) = send_data_channel_message_to_all_peers m label bytes

  -- After some requests, and whether any of them was accepted.
  unfoldable pub ask_all : Manager net sig → List (Request net) → Manager net sig × Bool
  unfolding ask
  ask_all m [] = (m, false)
  ask_all m (r ∷ rest) =
      let (next, now) = ask m r in let (last, later) = ask_all next rest in (last, now || later)

  ask-refused : (m : Manager net sig) (r : Request net) → IsRefusing m → ask m r ≡ (m, false)
  unfolding ask
  ask-refused m inits s = s.no_init
  ask-refused m starts s = s.no_start
  ask-refused m stops s = ap (λ (q : Manager net sig × List net.Pc). (q.0, has_some q.1)) s.no_stop
  ask-refused m (connects peer created) s = s.no_connect peer created
  ask-refused m (sends peer label bytes) s = s.no_send peer label bytes
  ask-refused m (broadcasts label bytes) s = s.no_broadcast label bytes

  ask_all-refused :
      (m : Manager net sig) (calls : List (Request net))
      → IsRefusing m
      → ask_all m calls ≡ (m, false)
  unfolding ask_all
  ask_all-refused m [] s = refl
  ask_all-refused m (r ∷ rest) s =
      ap (λ (q : Manager net sig × Bool). ((ask_all q.0 rest).0, q.1 || (ask_all q.0 rest).1))
        (ask-refused m r s)
      ∙ ask_all-refused m rest s

  -- Of a stop: every object is closed, none is left, the signaling client is disconnected, and no later
  -- request is accepted or changes anything.
  pub record IsStopped (m : Manager net sig) (calls : List (Request net))
      (after : Manager net sig × List net.Pc) : Type 0 where
    pub closed : AreClosed net m.peer_connections after.1
    pub none_left : after.0.peer_connections ≡ []
    pub offline : after.0.signaling_client ≡ Option.map sig.disconnect m.signaling_client
    pub state : after.0.state ≡ stopped
    pub refused : ask_all after.0 calls ≡ (after.0, false)

  stop_taken :
      (m : Manager net sig)
      → (m.state ≡ running) ⊎ (m.state ≡ initialized)
      → stop m ≡ stop_locked (record m { state = stopping })
  unfolding stop stop_begin
  stop_taken m h = ground (arith, h)

  -- In the states RUNNING and INITIALIZED stop closes every object that the manager holds, each once
  -- and in the order of the map, leaves none, disconnects the signaling client, if there is one, and
  -- leaves a manager in the state STOPPED. That manager accepts none of the calls of init, start,
  -- stop, connectToPeer, sendDataChannelMessage and sendDataChannelMessageToAllPeers that follow,
  -- however many, and stays as it is.
  pub stop-IsStopped :
      (m : Manager net sig) (calls : List (Request net))
      → (m.state ≡ running) ⊎ (m.state ≡ initialized)
      → IsStopped m calls (stop m)
  unfolding stop_locked
  stop-IsStopped m calls h =
      let last = (stop_locked (record m { state = stopping })).0 in
      subst⁻¹ (IsStopped m calls) (stop_taken m h) (record {
        closed = close_all-AreClosed net m.peer_connections;
        none_left = refl;
        offline = disconnected_client sig m.signaling_client;
        state = refl;
        refused = ask_all-refused last calls (stopped-IsRefusing last refl);
      })
