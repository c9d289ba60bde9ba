-- ===== src/Examples/Descriptions.antt =====
-- Concrete runs of the libwebrtc wrapper.
use mathlib.Core.List.{Sublist}
use whl_air.Base.{ℕ, suc, String, ◌≡◌, refl, true, false, some, List, [], ◌∷◌}
use whl_air.Webrtc.PeerConnection.{
  Libwebrtc, PeerConnection, Event, inits, creates_offer, closes, succeeds, completes, created,
  no_callbacks, run,
}
use whl_air.Webrtc.PeerConnection.Contract.{acts, view, meanings, IsRefined, run-refines}
use whl_air.Webrtc.PeerConnection.Origin.{texts, created_in, run-Sublist}
use whl_air.Webrtc.PeerConnection.Skeleton.{IsRefusing, run-created-IsRefusing}

-- A library that counts the descriptions that are set.
abbrev counting : Libwebrtc
counting = record {
  Rtc = ℕ;
  Description = String × String;
  type = λ d. d.0;
  to_string = λ d. d.1;
  set_local_description = λ n d. suc n;
  close = λ n. n;
}

abbrev offer : String × String
offer = ("offer", "v=0")

abbrev answer : String × String
answer = ("answer", "v=1")

-- A wrapper with a connection and a handler.
abbrev open_pc : PeerConnection counting
open_pc = record (created counting) {
  rtc_peer_connection = some 0;
  callbacks = record no_callbacks { on_local_sdp_generated = some 7 };
}

abbrev history : List (Event counting)
history =
    creates_offer
    ∷ succeeds (some offer)
    ∷ completes true
    ∷ succeeds (some answer)
    ∷ completes false
    ∷ closes
    ∷ []

run-refines_example : IsRefined (run open_pc history) (acts (view open_pc) (meanings history))
run-refines_example = run-refines open_pc history

run-Sublist_example : Sublist (texts (run open_pc history).1) (created_in history)
run-Sublist_example = run-Sublist open_pc history refl

run-created-IsRefusing_example :
    IsRefusing (run (created counting) (inits ∷ history)).0
    × ((run (created counting) (inits ∷ history)).1 ≡ [])
run-created-IsRefusing_example = run-created-IsRefusing (inits ∷ history)
