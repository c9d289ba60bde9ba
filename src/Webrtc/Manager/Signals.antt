-- ===== src/Webrtc/Manager/Signals.antt =====
-- webrtc/webrtc_manager.cc, handleSignalingMessage: each operation returns the manager after the
-- locked part and the invocations of the application's handlers that follow it.
use whl_air.Base.{String, ◌<>◌, true, false, Option, none, some, List, [], ◌∷◌, ◌++◌, if◌then◌else◌}
use whl_air.StringMap
use whl_air.StringMap.{Map}
use whl_air.Signaling.Message.{
  SignalMessage, MessageType, unknown, join, leave, offer, answer, candidate,
}
use whl_air.Webrtc.Interfaces.{IPeerConnection, ISignalingClient, Call, peer_error, signaling_error}
use whl_air.Webrtc.Manager.{Manager, PendingRemoteCandidate}
use whl_air.Webrtc.Manager.Peers.{hold, get_or_create_peer_connection}

-- The three fields of a candidate, if all are there.
pub candidate_of : SignalMessage → Option PendingRemoteCandidate
candidate_of msg = elim msg.candidate [
  | none ↦ none
  | some text ↦ elim msg.sdp_mid [
    | none ↦ none
    | some mid ↦ elim msg.sdp_mline_index [
      | none ↦ none
      | some index ↦ some (record { candidate = text; sdp_mid = mid; sdp_mline_index = index })
    ]
  ]
]

module _ (net : IPeerConnection) where
  -- The loop over the buffered candidates.
  unfoldable pub add_all : net.Pc → List PendingRemoteCandidate → net.Pc
  add_all pc [] = pc
  add_all pc (c ∷ rest) =
      add_all (net.add_remote_candidate pc c.candidate c.sdp_mid c.sdp_mline_index).0 rest

module _ {net : IPeerConnection} {sig : ISignalingClient} where
  -- `if (handler) handler(peer_id, error_msg)`
  unfoldable pub report_peer_error : Manager net sig → String → String → List Call
  report_peer_error m peer text = elim m.on_peer_error_handler [
    | none ↦ []
    | some handler ↦ peer_error handler peer text ∷ []
  ]

  unfoldable pub report_signaling_error : Manager net sig → String → List Call
  report_signaling_error m text = elim m.on_signaling_error_handler [
    | none ↦ []
    | some handler ↦ signaling_error handler text ∷ []
  ]

  -- What both descriptions do once SetRemoteDescription has succeeded, up to the answer: the mark,
  -- and the buffered candidates, which leave the buffer.
  unfoldable pub described : Manager net sig → String → Manager net sig
  described m peer = record m {
    remote_description_set = StringMap.insert peer true m.remote_description_set;
    pending_remote_candidates = StringMap.erase peer m.pending_remote_candidates;
  }

  unfoldable pub pending_of : Manager net sig → String → List PendingRemoteCandidate
  pending_of m peer = elim (StringMap.find peer m.pending_remote_candidates) [
    | none ↦ []
    | some pending ↦ pending
  ]

  unfoldable pub handle_leave : Manager net sig → String → Manager net sig × List Call
  unfolding hold
  handle_leave m peer = elim (StringMap.find peer m.peer_connections) [
    | none ↦ (m, [])
    | some none ↦ (m, [])
    | some (some pc) ↦ (
      record (hold peer (net.close pc) m) {
        remote_description_set = StringMap.erase peer m.remote_description_set;
        pending_remote_candidates = StringMap.erase peer m.pending_remote_candidates;
      },
      [],
    )
  ]

  unfoldable pub offer_to :
      Manager net sig → String → Option net.Pc → Option String → Manager net sig × List Call
  unfolding hold described pending_of add_all report_peer_error
  offer_to m peer (some pc) (some sdp) =
      let (set, ok) = net.set_remote_description pc "offer" sdp in
      if ok
      then (
        hold peer (net.create_answer (add_all net set (pending_of m peer))).0 (described m peer),
        [],
      )
      else (
        hold peer set m,
        report_peer_error m peer ("Failed to set remote OFFER before CreateAnswer for " <> peer),
      )
  offer_to m peer _ _ = (m, report_peer_error m peer "Received OFFER with missing SDP or PC")

  unfoldable pub answer_to :
      Manager net sig → String → Option net.Pc → Option String → Manager net sig × List Call
  unfolding hold described pending_of add_all report_peer_error
  answer_to m peer (some pc) (some sdp) =
      let (set, ok) = net.set_remote_description pc "answer" sdp in
      if ok
      then (hold peer (add_all net set (pending_of m peer)) (described m peer), [])
      else (hold peer set m, report_peer_error m peer ("Failed to set remote ANSWER for " <> peer))
  answer_to m peer _ _ = (m, report_peer_error m peer "Received ANSWER with missing SDP or PC")

  -- `remoteDescriptionSet_[peer_id]` makes an entry `false` where there is none.
  unfoldable pub candidate_to :
      Manager net sig → String → net.Pc → PendingRemoteCandidate → Manager net sig
  unfolding hold pending_of
  candidate_to m peer pc c =
      let added =
        hold peer (net.add_remote_candidate pc c.candidate c.sdp_mid c.sdp_mline_index).0 m in
      let buffered = record m {
        pending_remote_candidates =
            StringMap.insert peer (pending_of m peer ++ c ∷ []) m.pending_remote_candidates;
      } in
      elim (StringMap.find peer m.remote_description_set) [
        | some true ↦ added
        | some false ↦ buffered
        | none ↦ record buffered {
          remote_description_set = StringMap.insert peer false m.remote_description_set;
        }
      ]

  unfoldable pub candidate_for :
      Manager net sig
      → String
      → Option net.Pc
      → Option PendingRemoteCandidate
      → Manager net sig × List Call
  unfolding candidate_to report_peer_error
  candidate_for m peer (some pc) (some c) = (candidate_to m peer pc c, [])
  candidate_for m peer _ _ =
      (m, report_peer_error m peer "Received CANDIDATE with missing fields or PC")

  -- The switch on the type of the message.
  unfoldable pub dispatch :
      MessageType → Manager net sig → SignalMessage → Option net.Pc → Manager net sig × List Call
  unfolding handle_leave offer_to answer_to candidate_for candidate_of get_or_create_peer_connection
      report_signaling_error
  dispatch join m msg created = (m, [])
  dispatch leave m msg created = handle_leave m msg.from
  dispatch offer m msg created =
      let (found, pc) = get_or_create_peer_connection m msg.from created in
      offer_to found msg.from pc msg.sdp
  dispatch answer m msg created =
      let (found, pc) = get_or_create_peer_connection m msg.from created in
      answer_to found msg.from pc msg.sdp
  dispatch candidate m msg created =
      let (found, pc) = get_or_create_peer_connection m msg.from created in
      candidate_for found msg.from pc (candidate_of msg)
  dispatch unknown m msg created =
      (m, report_signaling_error m ("Received unknown signal message type from " <> msg.from))

  unfoldable pub handle_signaling_message :
      Manager net sig → SignalMessage → Option net.Pc → Manager net sig × List Call
  unfolding dispatch
  handle_signaling_message m msg created = dispatch msg.type m msg created
