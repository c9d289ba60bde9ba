-- ===== src/Webrtc/PeerConnection.antt =====
-- webrtc/peer_connection.cc: LibwebrtcPeerConnectionImpl. Every method holds the mutex from its first
-- access of a member to the last, and libwebrtc calls the observers later, so each method and each
-- observer is a function from state to state. The observers that only log share one.
pub mod Contract
pub mod Origin
pub mod Skeleton
use Prim.Native.Char.{code}
use Prim.Native.String.{[], ◌∷◌}
use whl_air.Base.{
  ℕ, String, Bool, true, false, not, Option, none, some, List, [], ◌∷◌, ◌++◌, if◌then◌else◌,
}
use whl_air.Base.Int.{ℤ}
use whl_air.Webrtc.Interfaces.{PeerConnectionState, DataChannelMessage, Handler}

-- What the wrapper calls of libwebrtc: `PeerConnectionInterface` and `SessionDescriptionInterface`.
pub record Libwebrtc : Type 1 where
  pub Rtc : Type 0
  pub Description : Type 0
  pub type : Description → String
  pub to_string : Description → String
  pub set_local_description : Rtc → Description → Rtc
  pub close : Rtc → Rtc

pub data IceConnectionState : Type 0 where
  new checking connected completed failed disconnected closed : IceConnectionState

pub data SignalingState : Type 0 where
  stable have_local_offer have_local_pr_answer have_remote_offer have_remote_pr_answer closed :
      SignalingState

-- An empty `std::function` is none.
pub record PeerConnectionCallbacks : Type 0 where
  pub on_local_sdp_generated : Option Handler
  pub on_local_candidate_generated : Option Handler
  pub on_connection_state_change : Option Handler
  pub on_ice_connection_state_change : Option Handler
  pub on_signaling_state_change : Option Handler
  pub on_ice_gathering_state_change : Option Handler
  pub on_data_channel_opened : Option Handler
  pub on_data_channel_closed : Option Handler
  pub on_data_channel_message : Option Handler
  pub on_add_video_track : Option Handler
  pub on_renegotiation_needed : Option Handler
  pub on_error : Option Handler

-- The default constructor.
abbrev pub no_callbacks : PeerConnectionCallbacks
no_callbacks = record {
  on_local_sdp_generated = none;
  on_local_candidate_generated = none;
  on_connection_state_change = none;
  on_ice_connection_state_change = none;
  on_signaling_state_change = none;
  on_ice_gathering_state_change = none;
  on_data_channel_opened = none;
  on_data_channel_closed = none;
  on_data_channel_message = none;
  on_add_video_track = none;
  on_renegotiation_needed = none;
  on_error = none;
}

pub record PeerConnection (lib : Libwebrtc) : Type 0 where
  pub rtc_peer_connection : Option lib.Rtc
  pub callbacks : PeerConnectionCallbacks
  pub awaiting_local_set_description : Bool
  pub pending_local_sdp_type : String
  pub pending_local_sdp_string : String

-- An invocation of `onLocalSdpGenerated`.
pub record LocalSdp : Type 0 where
  pub handler : Handler
  pub sdp_type : String
  pub sdp_string : String

-- The constructor, with the initialisers of the members.
abbrev pub created : (lib : Libwebrtc) → PeerConnection lib
created lib = record {
  rtc_peer_connection = none;
  callbacks = no_callbacks;
  awaiting_local_set_description = false;
  pending_local_sdp_type = "";
  pending_local_sdp_string = "";
}

-- The observers of libwebrtc whose bodies only log, without their arguments.
pub data Observer : Type 0 where
  on_signaling_change on_add_stream on_remove_stream on_add_track on_remove_track : Observer
  on_data_channel on_renegotiation_needed on_ice_connection_change : Observer
  on_standardized_ice_connection_change on_connection_change on_ice_gathering_change : Observer
  on_ice_candidate on_ice_candidates_removed on_ice_candidates_gathering_done : Observer
  on_ice_candidate_error on_validation_remote_candidate_failed : Observer
  on_stats_delivered on_audio_or_video_track : Observer

-- A method or an observer that is called.
pub data Event (lib : Libwebrtc) : Type 0 where
  inits creates_offer creates_answer closes fails : Event lib
  observes : Observer → Event lib
  sets_callbacks : PeerConnectionCallbacks → Event lib
  sets_remote_description : String → String → Event lib
  adds_remote_candidate : String → String → ℤ → Event lib
  sends_data : String → DataChannelMessage → Event lib
  sends_text : String → String → Event lib
  succeeds : Option lib.Description → Event lib
  completes : Bool → Event lib

-- The call of `local_sdp_cb` outside of the lock.
abbrev emit : Option Handler → String → String → List LocalSdp
emit none sdp_type sdp_string = []
emit (some handler) sdp_type sdp_string =
    record { handler = handler; sdp_type = sdp_type; sdp_string = sdp_string } ∷ []

-- The bytes of a text, for texts of 8-bit characters.
abbrev bytes_of : String → DataChannelMessage
bytes_of [] = []
bytes_of (c ∷ text) = code c ∷ bytes_of text

module _ {lib : Libwebrtc} where
  -- `!rtc_peer_connection_` is false.
  abbrev pub is_initialized : PeerConnection lib → Bool
  is_initialized pc = elim pc.rtc_peer_connection [ none ↦ false | some rtc ↦ true ]

  -- The source stands in for the factory of libwebrtc with a null pointer.
  unfoldable pub init : PeerConnection lib → PeerConnection lib × Bool
  init pc =
      let next : PeerConnection lib = record pc { rtc_peer_connection = none } in
      (next, is_initialized next)

  abbrev pub set_callbacks : PeerConnection lib → PeerConnectionCallbacks → PeerConnection lib
  set_callbacks pc callbacks = record pc { callbacks = callbacks }

  pub create_offer : PeerConnection lib → PeerConnection lib × Bool
  create_offer pc = if not (is_initialized pc) then (pc, false) else (pc, true)

  pub create_answer : PeerConnection lib → PeerConnection lib × Bool
  create_answer pc = if not (is_initialized pc) then (pc, false) else (pc, true)

  pub set_remote_description : PeerConnection lib → String → String → PeerConnection lib × Bool
  set_remote_description pc sdp_type sdp_string =
      if not (is_initialized pc) then (pc, false) else (pc, true)

  pub add_remote_candidate : PeerConnection lib → String → String → ℤ → PeerConnection lib × Bool
  add_remote_candidate pc candidate sdp_mid sdp_mline_index =
      if not (is_initialized pc) then (pc, false) else (pc, true)

  -- The lookup of the channel is commented out in the source.
  pub send_data : PeerConnection lib → String → DataChannelMessage → PeerConnection lib × Bool
  send_data pc label bytes = if not (is_initialized pc) then (pc, false) else (pc, false)

  -- The overload for a text.
  pub send_text : PeerConnection lib → String → String → PeerConnection lib × Bool
  unfolding send_data
  send_text pc label text = send_data pc label (bytes_of text)

  pub close : PeerConnection lib → PeerConnection lib
  close pc = elim pc.rtc_peer_connection [
    | none ↦ pc
    | some rtc ↦ record pc { rtc_peer_connection = some (lib.close rtc) }
  ]

  pub get_connection_state : PeerConnection lib → PeerConnectionState
  get_connection_state pc =
      if not (is_initialized pc) then PeerConnectionState.closed else PeerConnectionState.new

  pub get_ice_connection_state : PeerConnection lib → IceConnectionState
  get_ice_connection_state pc =
      if not (is_initialized pc) then IceConnectionState.closed else IceConnectionState.new

  pub get_signaling_state : PeerConnection lib → SignalingState
  get_signaling_state pc = if not (is_initialized pc) then SignalingState.closed else stable

  -- The three resets that stand together in the observers.
  abbrev clear : PeerConnection lib → PeerConnection lib
  clear pc = record pc {
    awaiting_local_set_description = false;
    pending_local_sdp_type = "";
    pending_local_sdp_string = "";
  }

  -- OnSuccess: libwebrtc has created an offer or an answer, null if there is none.
  pub on_success : PeerConnection lib → Option lib.Description → PeerConnection lib
  on_success pc none = pc
  on_success pc (some description) =
      let pending : PeerConnection lib = record pc {
        pending_local_sdp_type = lib.type description;
        pending_local_sdp_string = lib.to_string description;
        awaiting_local_set_description = true;
      } in
      elim pc.rtc_peer_connection [
        | none ↦ clear pending
        | some rtc ↦ record pending {
          rtc_peer_connection = some (lib.set_local_description rtc description);
        }
      ]

  -- OnFailure: the creation of a description has failed.
  abbrev pub on_failure : PeerConnection lib → PeerConnection lib
  on_failure pc = pc

  -- With what is handed on to the callbacks, which is nothing.
  unfoldable pub observe : PeerConnection lib → Observer → PeerConnection lib × List LocalSdp
  observe pc observer = (pc, [])

  -- OnSetSessionDescriptionComplete, with `error.ok()`.
  pub on_set_session_description_complete :
      PeerConnection lib → Bool → PeerConnection lib × List LocalSdp
  on_set_session_description_complete pc false =
      (if pc.awaiting_local_set_description then clear pc else pc, [])
  on_set_session_description_complete pc true =
      if pc.awaiting_local_set_description
      then (
        clear pc,
        emit pc.callbacks.on_local_sdp_generated pc.pending_local_sdp_type
            pc.pending_local_sdp_string,
      )
      else (pc, [])

  unfoldable pub step : PeerConnection lib → Event lib → PeerConnection lib × List LocalSdp
  unfolding on_success on_set_session_description_complete observe
  step pc inits = ((init pc).0, [])
  step pc creates_offer = ((create_offer pc).0, [])
  step pc creates_answer = ((create_answer pc).0, [])
  step pc closes = (close pc, [])
  step pc fails = (on_failure pc, [])
  step pc (observes observer) = observe pc observer
  step pc (sets_callbacks callbacks) = (set_callbacks pc callbacks, [])
  step pc (sets_remote_description kind sdp) = ((set_remote_description pc kind sdp).0, [])
  step pc (adds_remote_candidate text mid index) = ((add_remote_candidate pc text mid index).0, [])
  step pc (sends_data label bytes) = ((send_data pc label bytes).0, [])
  step pc (sends_text label text) = ((send_text pc label text).0, [])
  step pc (succeeds description) = (on_success pc description, [])
  step pc (completes ok) = on_set_session_description_complete pc ok

  -- With the invocations in their order.
  unfoldable pub run : PeerConnection lib → List (Event lib) → PeerConnection lib × List LocalSdp
  unfolding step
  run pc [] = (pc, [])
  run pc (e ∷ rest) =
      let (next, now) = step pc e in let (last, later) = run next rest in (last, now ++ later)
