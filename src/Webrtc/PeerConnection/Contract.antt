-- ===== src/Webrtc/PeerConnection/Contract.antt =====
-- What LibwebrtcPeerConnectionImpl of webrtc/peer_connection.cc promises about local descriptions: an
-- abstract machine that holds at most one description on offer, and the wrapper as its refinement.
use whl_air.Base.{
  String, ◌≡◌, refl, Bool, true, false, Option, none, some, List, [], ◌∷◌, ◌++◌, arith,
}
use whl_air.Webrtc.Interfaces.{Handler}
use whl_air.Webrtc.PeerConnection.{
  Libwebrtc, PeerConnection, LocalSdp, Event, inits, creates_offer, creates_answer, closes, fails,
  observes, sends_text, sets_callbacks, sets_remote_description, adds_remote_candidate, sends_data,
  succeeds, completes, is_initialized, step, run, close, init, create_offer, create_answer,
  set_remote_description, add_remote_candidate, send_data, send_text, on_success,
  on_set_session_description_complete,
}

-- A description: its type and its text.
abbrev pub Sdp : Type 0
Sdp = String × String

-- The abstract state: whether there is a libwebrtc connection, the handler, and the description on
-- offer.
pub record Contract : Type 0 where
  pub is_open : Bool
  pub handler : Option Handler
  pub on_offer : Option Sdp

pub data Act : Type 0 where
  nothing shuts : Act
  registers : Option Handler → Act
  offers : Sdp → Act
  settles : Bool → Act

abbrev pub deliver : Option Handler → Option Sdp → List LocalSdp
deliver (some handler) (some (kind, sdp)) =
    record { handler = handler; sdp_type = kind; sdp_string = sdp } ∷ []
deliver _ _ = []

-- A description is put on offer only while the connection is open; the end of SetLocalDescription
-- takes it away, and delivers it on success.
unfoldable pub act : Contract → Act → Contract × List LocalSdp
act c nothing = (c, [])
act c shuts = (record c { is_open = false }, [])
act c (registers handler) = (record c { handler = handler }, [])
act c (offers sdp) = (record c { on_offer = elim c.is_open [ true ↦ some sdp | false ↦ none ] }, [])
act c (settles true) = (record c { on_offer = none }, deliver c.handler c.on_offer)
act c (settles false) = (record c { on_offer = none }, [])

unfoldable pub acts : Contract → List Act → Contract × List LocalSdp
acts c [] = (c, [])
acts c (a ∷ rest) =
    let (next, now) = act c a in let (last, later) = acts next rest in (last, now ++ later)

module _ {lib : Libwebrtc} where
  -- The view of the wrapper's state that forgets the connection itself and the other handlers.
  unfoldable pub view : PeerConnection lib → Contract
  view pc = record {
    is_open = is_initialized pc;
    handler = pc.callbacks.on_local_sdp_generated;
    on_offer = elim pc.awaiting_local_set_description [
      | true ↦ some (pc.pending_local_sdp_type, pc.pending_local_sdp_string)
      | false ↦ none
    ];
  }

  -- What an event means to the contract.
  unfoldable pub meaning : Event lib → Act
  meaning inits = shuts
  meaning creates_offer = nothing
  meaning creates_answer = nothing
  meaning closes = nothing
  meaning fails = nothing
  meaning (observes observer) = nothing
  meaning (sets_callbacks callbacks) = registers callbacks.on_local_sdp_generated
  meaning (sets_remote_description kind sdp) = nothing
  meaning (adds_remote_candidate text mid index) = nothing
  meaning (sends_data label bytes) = nothing
  meaning (sends_text label text) = nothing
  meaning (succeeds none) = nothing
  meaning (succeeds (some description)) = offers (lib.type description, lib.to_string description)
  meaning (completes ok) = settles ok

  unfoldable pub meanings : List (Event lib) → List Act
  meanings [] = []
  meanings (e ∷ rest) = meaning e ∷ meanings rest

  unfoldable pub IsRefined : PeerConnection lib × List LocalSdp → Contract × List LocalSdp → Type 0
  IsRefined (pc, said) (c, told) = (view pc ≡ c) × (said ≡ told)

  step-IsRefined :
      (pc : PeerConnection lib) (e : Event lib) → IsRefined (step pc e) (act (view pc) (meaning e))
  unfolding IsRefined step act meaning view init create_offer create_answer close
      set_remote_description add_remote_candidate send_data send_text on_success
      on_set_session_description_complete
  step-IsRefined pc inits = ground arith
  step-IsRefined pc creates_offer = ground arith
  step-IsRefined pc creates_answer = ground arith
  step-IsRefined pc closes = ground arith
  step-IsRefined pc fails = ground arith
  step-IsRefined pc (observes observer) = ground arith
  step-IsRefined pc (sets_callbacks callbacks) = ground arith
  step-IsRefined pc (sets_remote_description kind sdp) = ground arith
  step-IsRefined pc (adds_remote_candidate text mid index) = ground arith
  step-IsRefined pc (sends_data label bytes) = ground arith
  step-IsRefined pc (sends_text label text) = ground arith
  step-IsRefined pc (succeeds none) = ground arith
  step-IsRefined pc (succeeds (some description)) = ground arith
  step-IsRefined pc (completes true) = ground arith
  step-IsRefined pc (completes false) = ground arith

  -- From every state and through every history of calls and of libwebrtc's answers, the wrapper's
  -- state is, seen through `view`, the state of the contract that has gone through the meanings of
  -- the same events, and it invokes the handler for the same descriptions in the same order.
  pub run-refines :
      (pc : PeerConnection lib) (history : List (Event lib))
      → IsRefined (run pc history) (acts (view pc) (meanings history))
  unfolding IsRefined run acts meanings
  run-refines pc [] = (refl, refl)
  run-refines pc (e ∷ rest) = grind (arith, step-IsRefined pc e, run-refines (step pc e).0 rest)
