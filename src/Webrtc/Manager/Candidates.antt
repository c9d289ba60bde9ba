-- ===== src/Webrtc/Manager/Candidates.antt =====
-- Remote ICE candidates in handleSignalingMessage of webrtc/webrtc_manager.cc: what becomes of those
-- that come before the remote description and of those that come after it.
use whl_air.Base.{
  String, ◌≡◌, refl, ap, sym, ◌∙◌, true, false, Option, none, some, List, [], ◌∷◌, ◌++◌, arith,
  eq_iff, append_assoc, append-nil, subst⁻¹,
}
use whl_air.StringMap
use whl_air.StringMap.{Map, find, find-insert, find-erase}
use whl_air.Signaling.Message.{SignalMessage, message, offer, answer, candidate}
use whl_air.Webrtc.Interfaces.{IPeerConnection, ISignalingClient}
use whl_air.Webrtc.Manager.{Manager, PendingRemoteCandidate}
use whl_air.Webrtc.Manager.Peers.{hold, get_or_create_peer_connection}
use whl_air.Webrtc.Manager.Signals.{
  add_all, pending_of, described, offer_to, answer_to, candidate_to, candidate_for,
  handle_signaling_message,
}

-- The messages that a peer sends.
abbrev pub candidate_message : String → PendingRemoteCandidate → SignalMessage
candidate_message peer c = record (message candidate peer "") {
  candidate = some c.candidate;
  sdp_mid = some c.sdp_mid;
  sdp_mline_index = some c.sdp_mline_index;
}

abbrev pub offer_message : String → String → SignalMessage
offer_message peer sdp = record (message offer peer "") { sdp = some sdp }

abbrev pub answer_message : String → String → SignalMessage
answer_message peer sdp = record (message answer peer "") { sdp = some sdp }

-- The manager holds this object for the peer, with its remote description set and no candidate
-- buffered.
pub record IsDescribed {net : IPeerConnection} {sig : ISignalingClient} (m : Manager net sig)
    (peer : String) (pc : net.Pc) : Type 0 where
  pub object : find peer m.peer_connections ≡ some (some pc)
  pub mark : find peer m.remote_description_set ≡ some true
  pub buffer : find peer m.pending_remote_candidates ≡ none

module _ {net : IPeerConnection} {sig : ISignalingClient} where
  abbrev pub receive : Manager net sig → SignalMessage → Option net.Pc → Manager net sig
  receive m msg created = (handle_signaling_message m msg created).0

  -- The manager after candidates of one peer, one message each, with no new object to be had.
  unfoldable pub receive_candidates :
      Manager net sig → String → List PendingRemoteCandidate → Manager net sig
  unfolding handle_signaling_message
  receive_candidates m peer [] = m
  receive_candidates m peer (c ∷ rest) =
      receive_candidates (handle_signaling_message m (candidate_message peer c) none).0 peer rest

module _ {net : IPeerConnection} {sig : ISignalingClient} (m : Manager net sig)
    (peer : String) where
  -- The object of the peer, and whether its remote description is set.
  module _ (pc : net.Pc) (held : find peer m.peer_connections ≡ some (some pc)) where
    candidate-held :
        (c : PendingRemoteCandidate)
        → (handle_signaling_message m (candidate_message peer c) none).0 ≡ candidate_to m peer pc c
    unfolding handle_signaling_message get_or_create_peer_connection candidate_for
    candidate-held c = ground arith

    candidate_to-unset :
        (c : PendingRemoteCandidate)
        → find peer m.remote_description_set ≡ some false
        → candidate_to m peer pc c ≡ record m {
          pending_remote_candidates =
              StringMap.insert peer (pending_of m peer ++ c ∷ []) m.pending_remote_candidates;
        }
    unfolding candidate_to
    candidate_to-unset c e = ground arith

    candidate_to-set :
        (c : PendingRemoteCandidate)
        → find peer m.remote_description_set ≡ some true
        → candidate_to m peer pc c
          ≡ hold peer (net.add_remote_candidate pc c.candidate c.sdp_mid c.sdp_mline_index).0 m
    unfolding candidate_to
    candidate_to-set c e = ground arith

  pending_of-insert :
      (cs : List PendingRemoteCandidate)
      → pending_of
          (record m {
            pending_remote_candidates = StringMap.insert peer cs m.pending_remote_candidates;
          })
          peer
        ≡ cs
  unfolding pending_of
  pending_of-insert cs =
      ground (arith, eq_iff peer peer, find-insert peer peer cs m.pending_remote_candidates)

  find-hold : (pc : net.Pc) → find peer (hold peer pc m).peer_connections ≡ some (some pc)
  unfolding hold
  find-hold pc =
      ground (arith, eq_iff peer peer, find-insert peer peer (some pc) m.peer_connections)

module _ {net : IPeerConnection} {sig : ISignalingClient} where
  -- Candidates that come while the description is not set only reach the buffer, in order.
  candidates-unset :
      (m : Manager net sig) (peer : String) (pc : net.Pc)
      → find peer m.peer_connections ≡ some (some pc)
      → find peer m.remote_description_set ≡ some false
      → (cs : List PendingRemoteCandidate)
      → (receive_candidates m peer cs).peer_connections ≡ m.peer_connections
        × (receive_candidates m peer cs).remote_description_set ≡ m.remote_description_set
        × pending_of (receive_candidates m peer cs) peer ≡ pending_of m peer ++ cs
  unfolding receive_candidates
  candidates-unset m peer pc held unset [] = (refl, refl, sym (append-nil (pending_of m peer)))
  candidates-unset m peer pc held unset (c ∷ rest) =
      let next : Manager net sig = record m {
        pending_remote_candidates =
            StringMap.insert peer (pending_of m peer ++ c ∷ []) m.pending_remote_candidates;
      } in
      let later = candidates-unset next peer pc held unset rest in
      let same = candidate-held m peer pc held c ∙ candidate_to-unset m peer pc held c unset in
      subst⁻¹
        (λ x.
          (receive_candidates x peer rest).peer_connections ≡ m.peer_connections
          × (receive_candidates x peer rest).remote_description_set ≡ m.remote_description_set
          × pending_of (receive_candidates x peer rest) peer ≡ pending_of m peer ++ c ∷ rest)
        same
        (
          later.0,
          later.1,
          later.2
              ∙ ap (λ l. l ++ rest) (pending_of-insert m peer (pending_of m peer ++ c ∷ []))
              ∙ append_assoc (pending_of m peer) (c ∷ []) rest,
        )

  -- Candidates that come after it reach the object, in order.
  candidates-set :
      (m : Manager net sig) (peer : String) (pc : net.Pc)
      → find peer m.peer_connections ≡ some (some pc)
      → find peer m.remote_description_set ≡ some true
      → (cs : List PendingRemoteCandidate)
      → find peer (receive_candidates m peer cs).peer_connections ≡ some (some (add_all net pc cs))
  unfolding receive_candidates add_all
  candidates-set m peer pc held set [] = held
  candidates-set m peer pc held set (c ∷ rest) =
      let after = (net.add_remote_candidate pc c.candidate c.sdp_mid c.sdp_mline_index).0 in
      subst⁻¹
        (λ x.
          find peer (receive_candidates x peer rest).peer_connections
          ≡ some (some (add_all net after rest)))
        (candidate-held m peer pc held c ∙ candidate_to-set m peer pc held c set)
        (candidates-set (hold peer after m) peer after (find-hold m peer after) set rest)

  -- What an OFFER does to a manager that holds an object for its sender.
  pub described_by_offer :
      (m : Manager net sig) (peer sdp : String) (pc : net.Pc) (created : Option net.Pc)
      → find peer m.peer_connections ≡ some (some pc)
      → (net.set_remote_description pc "offer" sdp).1 ≡ true
      → (handle_signaling_message m (offer_message peer sdp) created).0
        ≡ hold peer
            (net.create_answer
              (add_all net (net.set_remote_description pc "offer" sdp).0 (pending_of m peer))).0
            (described m peer)
  unfolding handle_signaling_message get_or_create_peer_connection offer_to
  described_by_offer m peer sdp pc created held ok = ground arith

  described_by_answer :
      (m : Manager net sig) (peer sdp : String) (pc : net.Pc) (created : Option net.Pc)
      → find peer m.peer_connections ≡ some (some pc)
      → (net.set_remote_description pc "answer" sdp).1 ≡ true
      → (handle_signaling_message m (answer_message peer sdp) created).0
        ≡ hold peer
            (add_all net (net.set_remote_description pc "answer" sdp).0 (pending_of m peer))
            (described m peer)
  unfolding handle_signaling_message get_or_create_peer_connection answer_to
  described_by_answer m peer sdp pc created held ok = ground arith

  pub described-IsDescribed :
      (m : Manager net sig) (peer : String) (pc : net.Pc)
      → IsDescribed (hold peer pc (described m peer)) peer pc
  unfolding hold described
  described-IsDescribed m peer pc = record {
    object = find-hold (described m peer) peer pc;
    mark = ground (arith, eq_iff peer peer, find-insert peer peer true m.remote_description_set);
    buffer = ground (arith, eq_iff peer peer, find-erase peer peer m.pending_remote_candidates);
  }

  -- Candidates that come before the OFFER are added to the peer's object when the OFFER's description
  -- has been set, all of them, in the order in which they came and after those that were buffered
  -- already; the answer is created after that, and the buffer of the peer is empty. The manager holds
  -- an object for the peer, whose description is not set, and SetRemoteDescription succeeds.
  pub offer_adds_buffered :
      (m : Manager net sig) (peer sdp : String) (pc : net.Pc) (created : Option net.Pc)
      (cs : List PendingRemoteCandidate)
      → find peer m.peer_connections ≡ some (some pc)
      → find peer m.remote_description_set ≡ some false
      → (net.set_remote_description pc "offer" sdp).1 ≡ true
      → IsDescribed
          (receive (receive_candidates m peer cs) (offer_message peer sdp) created)
          peer
          (net.create_answer
            (add_all net (net.set_remote_description pc "offer" sdp).0 (pending_of m peer ++ cs))).0
  offer_adds_buffered m peer sdp pc created cs held unset ok =
      let before = candidates-unset m peer pc held unset cs in
      let n = receive_candidates m peer cs in
      let same = described_by_offer n peer sdp pc created (ap (find peer) before.0 ∙ held) ok in
      rw same (rw before.2 (described-IsDescribed n peer _))

  -- For an ANSWER it makes no difference to the peer's object whether candidates come before it or
  -- after it. The manager holds an object for the peer, whose description is not set and for which
  -- nothing is buffered, and SetRemoteDescription succeeds.
  pub candidates_around_answer :
      (m : Manager net sig) (peer sdp : String) (pc : net.Pc) (created : Option net.Pc)
      (cs : List PendingRemoteCandidate)
      → find peer m.peer_connections ≡ some (some pc)
      → find peer m.remote_description_set ≡ some false
      → pending_of m peer ≡ []
      → (net.set_remote_description pc "answer" sdp).1 ≡ true
      → find peer
          (receive
            (receive_candidates m peer cs)
            (answer_message peer sdp)
            created).peer_connections
        ≡ find peer
            (receive_candidates
              (receive m (answer_message peer sdp) created)
              peer
              cs).peer_connections
  unfolding add_all
  candidates_around_answer m peer sdp pc created cs held unset empty ok =
      let before = candidates-unset m peer pc held unset cs in
      let n = receive_candidates m peer cs in
      let set = (net.set_remote_description pc "answer" sdp).0 in
      let first = described_by_answer n peer sdp pc created (ap (find peer) before.0 ∙ held) ok in
      let second = described_by_answer m peer sdp pc created held ok in
      let done = described-IsDescribed m peer set in
      ap (λ x. find peer x.peer_connections) first
      ∙ find-hold (described n peer) peer (add_all net set (pending_of n peer))
      ∙ ap (λ l. some (some (add_all net set l))) (before.2 ∙ ap (λ l. l ++ cs) empty)
      ∙ sym (
          ap (λ x. find peer (receive_candidates x peer cs).peer_connections) second
          ∙ ap
              (λ l.
                find peer
                  (receive_candidates (hold peer (add_all net set l) (described m peer)) peer
                    cs).peer_connections)
              empty
          ∙ candidates-set (hold peer set (described m peer)) peer set done.object done.mark cs)
