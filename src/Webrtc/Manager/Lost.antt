-- ===== src/Webrtc/Manager/Lost.antt =====
-- What checkForHeartbeatLoss of webrtc/webrtc_manager.cc does where heartbeats are recorded.
use whl_air.Base.{
  ℕ, suc, ◌-◌, ◌*◌, ◌≤◌, String, ◌≡◌, ◌≢◌, refl, ap, sym, subst⁻¹, ◌∙◌, ◌==◌, eq_iff, ltb, Bool,
  true, false, ◌&&◌, ◌||◌, Option, none, some, List, [], ◌∷◌, arith, Bool-cases, inl, inr,
}
use whl_air.Base.Int.{pos}
use whl_air.StringMap.{Map, find, erase, find-erase}
use whl_air.Webrtc.Interfaces.{
  IPeerConnection, ISignalingClient, PeerConnectionState, connecting, connected, disconnected,
  failed, closed,
}
use whl_air.Webrtc.Manager.{Manager}
use whl_air.Webrtc.Manager.Peers.{destroy_peer_connection}
use whl_air.Webrtc.Manager.PeerEvents.{is_live, overdue, destroy_all, check_for_heartbeat_loss}
use whl_air.Webrtc.Manager.Teardown.{IsForgotten, destroy-IsForgotten}
use whl_air.Webrtc.Manager.Frame.{IsSameFor, same, after, destroy-same}

abbrev listed : String → List String → Bool
listed peer [] = false
listed peer (p ∷ rest) = p == peer || listed peer rest

-- A recorded heartbeat of the peer is older than the timeout.
pub is_late : String → ℕ → ℕ → Map ℕ → Bool
is_late peer now timeout [] = false
is_late peer now timeout ((p, last) ∷ rest) =
    (p == peer && ltb timeout (now - last)) || is_late peer now timeout rest

overdue-listed :
    (net : IPeerConnection) (peers : Map (Option net.Pc)) (peer : String) (now timeout : ℕ)
    (times : Map ℕ)
    → listed peer (overdue net peers now timeout times)
      ≡ (is_live net peers peer && is_late peer now timeout times)
unfolding overdue is_late
overdue-listed net peers peer now timeout [] = ground arith
overdue-listed net peers peer now timeout ((p, last) ∷ rest) =
    let later = overdue-listed net peers peer now timeout rest in
    elim (Bool-cases (p == peer)) [
      | inl e ↦
          let q : p ≡ peer = ground (arith, e, eq_iff p peer) in
          let live : is_live net peers p ≡ is_live net peers peer = ap (is_live net peers) q in
          ground (arith, e, live, later)
      | inr d ↦ ground (arith, d, later)
    ]

still_gone :
    {A : Type 0} (peer p : String) (m : Map A) → find peer m ≡ none → find peer (erase p m) ≡ none
still_gone peer p m f = ground (arith, find-erase p peer m, f)

module _ {net : IPeerConnection} {sig : ISignalingClient} (peer : String) where
  destroy-keeps :
      (m : Manager net sig) (p : String)
      → IsForgotten m peer
      → IsForgotten (destroy_peer_connection m p).0 peer
  unfolding destroy_peer_connection
  destroy-keeps m p f =
      let gone : IsForgotten
          (record m {
            last_heartbeat_rx_time = erase p m.last_heartbeat_rx_time;
            reconnection_attempt_count = erase p m.reconnection_attempt_count;
            remote_description_set = erase p m.remote_description_set;
            pending_remote_candidates = erase p m.pending_remote_candidates;
            peer_connections = erase p m.peer_connections;
          })
          peer =
        record {
          object = still_gone peer p m.peer_connections f.object;
          heartbeat = still_gone peer p m.last_heartbeat_rx_time f.heartbeat;
          attempts = still_gone peer p m.reconnection_attempt_count f.attempts;
          mark = still_gone peer p m.remote_description_set f.mark;
          buffer = still_gone peer p m.pending_remote_candidates f.buffer;
        } in
      ground (arith, gone, f)

  destroy_all-keeps :
      (m : Manager net sig) (peers : List String)
      → IsForgotten m peer
      → IsForgotten (destroy_all m peers) peer
  unfolding destroy_all
  destroy_all-keeps m [] f = f
  destroy_all-keeps m (p ∷ rest) f =
      destroy_all-keeps (destroy_peer_connection m p).0 rest (destroy-keeps m p f)

  destroy_all-listed :
      (m : Manager net sig) (peers : List String) (held : Option net.Pc)
      → find peer m.peer_connections ≡ some held
      → listed peer peers ≡ true
      → IsForgotten (destroy_all m peers) peer
  unfolding destroy_all
  destroy_all-listed m [] held h l = cc
  destroy_all-listed m (p ∷ rest) held h l = elim (Bool-cases (p == peer)) [
    | inl e ↦
        let q : p ≡ peer = ground (arith, e, eq_iff p peer) in
        destroy_all-keeps (destroy_peer_connection m p).0 rest (
          subst⁻¹ (λ r. IsForgotten (destroy_peer_connection m r).0 peer) q
            (destroy-IsForgotten m peer held h))
    | inr d ↦
        let apart : p ≢ peer = ground (arith, d, eq_iff p peer) in
        let onward : listed peer rest ≡ true = ground (arith, l, d) in
        destroy_all-listed (destroy_peer_connection m p).0 rest held
          ((destroy-same m p peer apart).object ∙ h) onward
  ]

  destroy_all-unlisted :
      (m : Manager net sig) (peers : List String)
      → listed peer peers ≡ false
      → IsSameFor peer m (destroy_all m peers)
  unfolding destroy_all
  destroy_all-unlisted m [] l = same peer m
  destroy_all-unlisted m (p ∷ rest) l =
      let apart : p ≢ peer = ground (arith, l, eq_iff p peer) in
      let onward : listed peer rest ≡ false = ground (arith, l) in
      after peer m (destroy_peer_connection m p).0 (destroy_all m (p ∷ rest))
        (destroy-same m p peer apart)
        (destroy_all-unlisted (destroy_peer_connection m p).0 rest onward)

-- A peer of which nothing is left, or for which all is as before.
pub IsChecked :
    {net : IPeerConnection} {sig : ISignalingClient}
    → Bool
    → String
    → Manager net sig
    → Manager net sig
    → Type 0
IsChecked true peer m next = IsForgotten next peer
IsChecked false peer m next = IsSameFor peer m next

-- Whether an object is there in the state CONNECTED.
pub is_up : (net : IPeerConnection) → Option (Option net.Pc) → Bool
is_up net none = false
is_up net (some none) = false
is_up net (some (some pc)) = elim (net.get_connection_state pc) [
  | PeerConnectionState.new ↦ false
  | connecting ↦ false
  | connected ↦ true
  | disconnected ↦ false
  | failed ↦ false
  | closed ↦ false
]

live-up :
    (net : IPeerConnection) (peers : Map (Option net.Pc)) (peer : String)
    → is_live net peers peer ≡ is_up net (find peer peers)
unfolding is_live is_up
live-up net peers peer = ground arith

module _ {net : IPeerConnection} {sig : ISignalingClient} (m : Manager net sig) (peer : String)
    (now n : ℕ) where
  -- A connected object whose last heartbeat is older than three intervals.
  pub is_lost : Bool
  is_lost =
      is_up net (find peer m.peer_connections)
      && is_late peer now (suc n * 3) m.last_heartbeat_rx_time

  checked :
      m.heartbeat_interval_ms ≡ pos (suc n)
      → check_for_heartbeat_loss m now
        ≡ destroy_all m (overdue net m.peer_connections now (suc n * 3) m.last_heartbeat_rx_time)
  unfolding check_for_heartbeat_loss
  checked timed = ground (arith, timed)

  live_held :
      (found : Option (Option net.Pc))
      → found ≡ find peer m.peer_connections
      → is_live net m.peer_connections peer ≡ true
      → (held : Option net.Pc) × (find peer m.peer_connections ≡ some held)
  unfolding is_live
  live_held none e l = ground (arith, e, l)
  live_held (some held) e l = (held, sym e)

  -- With a positive heartbeat interval, three times which is an int of 32 bits, the check for lost
  -- heartbeats removes all that the manager knows of a peer exactly if its connection is connected
  -- and its last heartbeat is older than three intervals; for every other peer it leaves the connection, the description mark, the buffered
  -- candidates and the heartbeat as they were.
  pub check_removes_lost :
      m.heartbeat_interval_ms ≡ pos (suc n)
      → suc n * 3 ≤ 2147483647
      → IsChecked is_lost peer m (check_for_heartbeat_loss m now)
  unfolding IsChecked is_lost
  check_removes_lost timed fits =
      let late = overdue net m.peer_connections now (suc n * 3) m.last_heartbeat_rx_time in
      let up = live-up net m.peer_connections peer in
      let found : listed peer late ≡ is_lost =
        overdue-listed net m.peer_connections peer now (suc n * 3) m.last_heartbeat_rx_time
        ∙ ap (λ b. b && is_late peer now (suc n * 3) m.last_heartbeat_rx_time) up in
      subst⁻¹ (IsChecked is_lost peer m) (checked timed) (elim (Bool-cases is_lost) [
        | inl e ↦
            let live : is_live net m.peer_connections peer ≡ true = ground (arith, e, up) in
            let (held, h) = live_held (find peer m.peer_connections) refl live in
            subst⁻¹ (λ b. IsChecked b peer m (destroy_all m late)) e
              (destroy_all-listed peer m late held h (found ∙ e))
        | inr e ↦
            subst⁻¹ (λ b. IsChecked b peer m (destroy_all m late)) e
              (destroy_all-unlisted peer m late (found ∙ e))
      ])
