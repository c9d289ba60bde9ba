-- ===== src/Webrtc/PeerConnection/Origin.antt =====
-- Where the local descriptions that LibwebrtcPeerConnectionImpl of webrtc/peer_connection.cc hands on
-- come from.
use mathlib.Core.List.{Sublist, nil-sublist}
use mathlib.Core.List.Sublist as Sublist
use whl_air.Base.{
  ◌≡◌, refl, ap, subst⁻¹, sym, Bool, true, false, Option, none, some, List, [], ◌∷◌, ◌++◌, arith,
}
use whl_air.Webrtc.Interfaces.{Handler}
use whl_air.Webrtc.PeerConnection.{
  Libwebrtc, PeerConnection, LocalSdp, Event, inits, creates_offer, creates_answer, closes, fails,
  observes, sends_text, sets_callbacks, sets_remote_description, adds_remote_candidate, sends_data,
  succeeds, completes, run,
}
use whl_air.Webrtc.PeerConnection.Contract.{
  Sdp, Contract, Act, nothing, shuts, registers, offers, settles, act, acts, deliver, meaning, view,
  meanings, IsRefined, run-refines,
}

-- What is said, without the handler.
pub texts : List LocalSdp → List Sdp
texts [] = []
texts (said ∷ rest) = (said.sdp_type, said.sdp_string) ∷ texts rest

-- The descriptions that are put forward.
offered : List Act → List Sdp
offered [] = []
offered (offers sdp ∷ rest) = sdp ∷ offered rest
offered (nothing ∷ rest) = offered rest
offered (shuts ∷ rest) = offered rest
offered (registers handler ∷ rest) = offered rest
offered (settles ok ∷ rest) = offered rest

abbrev held : Option Sdp → List Sdp
held none = []
held (some sdp) = sdp ∷ []

dropped :
    (xs : List Sdp) (o : Option Sdp) (rest : List Sdp)
    → Sublist xs rest
    → Sublist xs (held o ++ rest)
dropped xs none rest s = s
dropped xs (some old) rest s = Sublist.cons old s

replaced :
    (is_open : Bool) (xs : List Sdp) (sdp : Sdp) (rest : List Sdp)
    → Sublist xs (held (elim is_open [ true ↦ some sdp | false ↦ none ]) ++ rest)
    → Sublist xs (sdp ∷ rest)
replaced true xs sdp rest s = s
replaced false xs sdp rest s = Sublist.cons sdp s

settled :
    (handler : Option Handler) (o : Option Sdp) (said : List LocalSdp) (rest : List Sdp)
    → Sublist (texts said) rest
    → Sublist (texts (deliver handler o ++ said)) (held o ++ rest)
unfolding texts
settled (some handler) (some sdp) said rest s = Sublist.cons-cons sdp s
settled (some handler) none said rest s = s
settled none (some sdp) said rest s = Sublist.cons sdp s
settled none none said rest s = s

acts-Sublist :
    (c : Contract) (deeds : List Act)
    → Sublist (texts (acts c deeds).1) (held c.on_offer ++ offered deeds)
unfolding acts act texts offered
acts-Sublist c [] = nil-sublist (held c.on_offer ++ [])
acts-Sublist c (nothing ∷ rest) = acts-Sublist c rest
acts-Sublist c (shuts ∷ rest) = acts-Sublist (record c { is_open = false }) rest
acts-Sublist c (registers handler ∷ rest) = acts-Sublist (record c { handler = handler }) rest
acts-Sublist c (offers sdp ∷ rest) = dropped _ c.on_offer _ (
    replaced c.is_open _ sdp _ (
      acts-Sublist (record c { on_offer = elim c.is_open [ true ↦ some sdp | false ↦ none ] })
        rest))
acts-Sublist c (settles true ∷ rest) =
    settled c.handler c.on_offer _ _ (acts-Sublist (record c { on_offer = none }) rest)
acts-Sublist c (settles false ∷ rest) =
    dropped _ c.on_offer _ (acts-Sublist (record c { on_offer = none }) rest)

module _ {lib : Libwebrtc} where
  -- The descriptions that libwebrtc has created in a history, in order.
  pub created_in : List (Event lib) → List Sdp
  created_in [] = []
  created_in (succeeds (some description) ∷ rest) =
      (lib.type description, lib.to_string description) ∷ created_in rest
  created_in (_ ∷ rest) = created_in rest

  offered-created : (history : List (Event lib)) → offered (meanings history) ≡ created_in history
  unfolding offered meanings meaning created_in
  offered-created [] = refl
  offered-created (succeeds (some description) ∷ rest) =
      ap (λ r. (lib.type description, lib.to_string description) ∷ r) (offered-created rest)
  offered-created (succeeds none ∷ rest) = offered-created rest
  offered-created (completes ok ∷ rest) = offered-created rest
  offered-created (inits ∷ rest) = offered-created rest
  offered-created (creates_offer ∷ rest) = offered-created rest
  offered-created (creates_answer ∷ rest) = offered-created rest
  offered-created (closes ∷ rest) = offered-created rest
  offered-created (fails ∷ rest) = offered-created rest
  offered-created (observes observer ∷ rest) = offered-created rest
  offered-created (sets_callbacks callbacks ∷ rest) = offered-created rest
  offered-created (sets_remote_description kind sdp ∷ rest) = offered-created rest
  offered-created (adds_remote_candidate text mid index ∷ rest) = offered-created rest
  offered-created (sends_data label bytes ∷ rest) = offered-created rest
  offered-created (sends_text label text ∷ rest) = offered-created rest

  idle-view :
      (pc : PeerConnection lib)
      → pc.awaiting_local_set_description ≡ false
      → (view pc).on_offer ≡ none
  unfolding view
  idle-view pc idle = ground arith

  -- A wrapper that awaits nothing hands on only descriptions that libwebrtc has created since, each
  -- at most once for each time that it was created, and in the order of their creation: what it hands
  -- on in a history is a sublist of what is created in it.
  pub run-Sublist :
      (pc : PeerConnection lib) (history : List (Event lib))
      → pc.awaiting_local_set_description ≡ false
      → Sublist (texts (run pc history).1) (created_in history)
  unfolding IsRefined
  run-Sublist pc history idle =
      subst⁻¹ (λ l. Sublist (texts l) (created_in history)) (run-refines pc history).1
        (subst⁻¹
          (λ o.
            Sublist (texts (acts (view pc) (meanings history)).1) (held o ++ created_in history))
          (sym (idle-view pc idle))
          (rw (sym (offered-created history)) (acts-Sublist (view pc) (meanings history))))
