-- ===== src/Signaling/Pieces/Naming.antt =====
-- Which names the pieces of a message of signaling/signaling_message.cc have.
use whl_air.Base.{String, ◌≡◌, false, Option, none, some}
use whl_air.Base.Int.{ℤ}
use whl_air.Signaling.Pieces.{Pieces, done, mark, same, NamesNoNumber, NamesNoText}
use whl_air.Signaling.Pieces.Layout.{optional, index, nested, rest_of}

optional-NamesNoNumber :
    (key name : String) (o : Option String) (ps : Pieces)
    → NamesNoNumber key ps
    → NamesNoNumber key (optional name o ps)
optional-NamesNoNumber key name none ps h = h
optional-NamesNoNumber key name (some v) ps h = h

index-NamesNoNumber :
    (key : String) (o : Option ℤ) (ps : Pieces)
    → same "sdpMlineIndex" key ≡ false
    → same "sdpMLineIndex" key ≡ false
    → NamesNoNumber key ps
    → NamesNoNumber key (index o ps)
index-NamesNoNumber key none ps p q h = h
index-NamesNoNumber key (some n) ps p q h = (p, (q, h))

nested-NamesNoNumber :
    (key : String) (c mid : Option String) (o : Option ℤ) (ps : Pieces)
    → same "sdpMlineIndex" key ≡ false
    → same "sdpMLineIndex" key ≡ false
    → NamesNoNumber key ps
    → NamesNoNumber key (nested c mid o ps)
nested-NamesNoNumber key none mid o ps p q h = h
nested-NamesNoNumber key (some c) mid o ps p q h =
    optional-NamesNoNumber key "sdpMid" mid (index o (mark "}" ps))
      (index-NamesNoNumber key o (mark "}" ps) p q h)

optional-NamesNoText :
    (key name : String) (o : Option String) (ps : Pieces)
    → same name key ≡ false
    → NamesNoText key ps
    → NamesNoText key (optional name o ps)
optional-NamesNoText key name none ps p h = h
optional-NamesNoText key name (some v) ps p h = (p, h)

index-NamesNoText :
    (key : String) (o : Option ℤ) (ps : Pieces) → NamesNoText key ps → NamesNoText key (index o ps)
index-NamesNoText key none ps h = h
index-NamesNoText key (some n) ps h = h

nested-NamesNoText :
    (key : String) (c mid : Option String) (o : Option ℤ) (ps : Pieces)
    → same "candidate" key ≡ false
    → same "sdpMid" key ≡ false
    → NamesNoText key ps
    → NamesNoText key (nested c mid o ps)
nested-NamesNoText key none mid o ps p q h = h
nested-NamesNoText key (some c) mid o ps p q h = (
  p,
  (
    p,
    optional-NamesNoText key "sdpMid" mid (index o (mark "}" ps)) q
        (index-NamesNoText key o (mark "}" ps) h),
  ),
)

module _ (sdp c mid : Option String) (o : Option ℤ) (reason : Option String) where
  pub names_no_number :
      (key : String)
      → same "sdpMlineIndex" key ≡ false
      → same "sdpMLineIndex" key ≡ false
      → NamesNoNumber key (rest_of sdp c mid o reason)
  names_no_number key p q =
      optional-NamesNoNumber key "sdp" sdp
        (nested c mid o (optional "reason" reason (mark "}" done)))
        (nested-NamesNoNumber key c mid o (optional "reason" reason (mark "}" done)) p q
          (optional-NamesNoNumber key "reason" reason (mark "}" done) tt))

  pub names_no_text :
      (key : String)
      → same "sdp" key ≡ false
      → same "candidate" key ≡ false
      → same "sdpMid" key ≡ false
      → same "reason" key ≡ false
      → NamesNoText key (rest_of sdp c mid o reason)
  names_no_text key p q r t =
      optional-NamesNoText key "sdp" sdp (nested c mid o (optional "reason" reason (mark "}" done)))
        p
        (nested-NamesNoText key c mid o (optional "reason" reason (mark "}" done)) q r
          (optional-NamesNoText key "reason" reason (mark "}" done) t tt))
