-- ===== src/Webrtc/PeerConnection/Skeleton.antt =====
-- The wrapper of webrtc/peer_connection.cc as it stands: its init stores a null connection.
use whl_air.Base.{String, ◌≡◌, refl, true, false, none, some, List, [], ◌∷◌, arith}
use whl_air.Base.Int.{ℤ}
use whl_air.Webrtc.Interfaces.{PeerConnectionState, DataChannelMessage}
use whl_air.Webrtc.PeerConnection.{
  Libwebrtc, PeerConnection, IceConnectionState, SignalingState, Event, inits, creates_offer,
  creates_answer, closes, fails, observes, sends_text, sets_callbacks, sets_remote_description,
  adds_remote_candidate, sends_data, succeeds, completes, created, init, create_offer,
  create_answer, set_remote_description, add_remote_candidate, send_data, send_text, close,
  get_connection_state, get_ice_connection_state, get_signaling_state, on_success,
  on_set_session_description_complete, step, run,
}

module _ {lib : Libwebrtc} where
  -- There is no connection of libwebrtc, and no description waits.
  record IsNull (pc : PeerConnection lib) : Type 0 where
    absent : pc.rtc_peer_connection ≡ none
    idle : pc.awaiting_local_set_description ≡ false

  step-IsNull :
      (pc : PeerConnection lib) (e : Event lib)
      → IsNull pc
      → IsNull (step pc e).0 × ((step pc e).1 ≡ [])
  unfolding step init create_offer create_answer set_remote_description add_remote_candidate
      send_data send_text close on_success on_set_session_description_complete
  step-IsNull pc inits s = ground arith
  step-IsNull pc creates_offer s = ground arith
  step-IsNull pc creates_answer s = ground arith
  step-IsNull pc closes s = ground arith
  step-IsNull pc fails s = ground arith
  step-IsNull pc (observes observer) s = ground arith
  step-IsNull pc (sets_callbacks callbacks) s = ground arith
  step-IsNull pc (sets_remote_description kind sdp) s = ground arith
  step-IsNull pc (adds_remote_candidate text mid index) s = ground arith
  step-IsNull pc (sends_data label bytes) s = ground arith
  step-IsNull pc (sends_text label text) s = ground arith
  step-IsNull pc (succeeds none) s = ground arith
  step-IsNull pc (succeeds (some description)) s = ground arith
  step-IsNull pc (completes true) s = ground arith
  step-IsNull pc (completes false) s = ground arith

  run-IsNull :
      (pc : PeerConnection lib) (history : List (Event lib))
      → IsNull pc
      → IsNull (run pc history).0 × ((run pc history).1 ≡ [])
  unfolding run
  run-IsNull pc [] s = (s, refl)
  run-IsNull pc (e ∷ rest) s =
      let (kept, said) = step-IsNull pc e s in
      let (last, later) = run-IsNull (step pc e).0 rest kept in (last, ground (arith, said, later))

  -- Every request is refused, and every state is Closed.
  pub IsRefusing : PeerConnection lib → Type 0
  IsRefusing pc =
      ((init pc).1 ≡ false)
      × ((create_offer pc).1 ≡ false)
      × ((create_answer pc).1 ≡ false)
      × ((kind sdp : String) → (set_remote_description pc kind sdp).1 ≡ false)
      × ((text mid : String) (index : ℤ) → (add_remote_candidate pc text mid index).1 ≡ false)
      × ((label : String) (bytes : DataChannelMessage) → (send_data pc label bytes).1 ≡ false)
      × ((label text : String) → (send_text pc label text).1 ≡ false)
      × (get_connection_state pc ≡ PeerConnectionState.closed)
      × (get_ice_connection_state pc ≡ IceConnectionState.closed)
      × (get_signaling_state pc ≡ SignalingState.closed)

  null-IsRefusing : (pc : PeerConnection lib) → IsNull pc → IsRefusing pc
  unfolding IsRefusing init create_offer create_answer set_remote_description add_remote_candidate
      send_data send_text get_connection_state get_ice_connection_state get_signaling_state
  null-IsRefusing pc s = (
    ground arith,
    ground arith,
    ground arith,
    λ kind sdp. ground arith,
    λ text mid index. ground arith,
    λ label bytes. ground arith,
    λ label text. ground arith,
    ground arith,
    ground arith,
    ground arith,
  )

  -- After every history of calls of the methods and observers of a newly constructed wrapper, init
  -- among them, its init, CreateOffer, CreateAnswer, SetRemoteDescription, AddRemoteCandidate and
  -- SendData return false, its three states are Closed, and it has handed on no local description.
  pub run-created-IsRefusing :
      (history : List (Event lib))
      → IsRefusing (run (created lib) history).0 × ((run (created lib) history).1 ≡ [])
  run-created-IsRefusing history =
      let (s, said) = run-IsNull (created lib) history (record { absent = refl; idle = refl }) in
      (null-IsRefusing (run (created lib) history).0 s, said)
