-- ===== src/Signaling/Pieces/Values.antt =====
-- What stands in the fields that a message of signaling/signaling_message.cc may have.
use whl_air.Base.{String, ◌≡◌, refl, ap, sym, ◌∙◌, false, Option, none, some, arith, if◌then◌else◌}
use whl_air.Base.Int.{ℤ}
use whl_air.Signaling.Pieces.{Pieces, done, mark, same, lookup, lookup_number, or_else}
use whl_air.Signaling.Pieces.Layout.{optional, index, nested, rest_of}

lookup-optional :
    (key name : String) (o : Option String) (ps : Pieces)
    → lookup key (optional name o ps)
      ≡ (if same name key then or_else o (lookup key ps) else lookup key ps)
lookup-optional key name none ps = ground arith
lookup-optional key name (some v) ps = ground arith

lookup-index : (key : String) (o : Option ℤ) (ps : Pieces) → lookup key (index o ps) ≡ lookup key ps
lookup-index key none ps = refl
lookup-index key (some n) ps = refl

lookup-nested :
    (key : String) (c mid : Option String) (o : Option ℤ) (ps : Pieces)
    → same "candidate" key ≡ false
    → same "sdpMid" key ≡ false
    → lookup key (nested c mid o ps) ≡ lookup key ps
lookup-nested key none mid o ps p q = refl
lookup-nested key (some c) mid o ps p q = ground (
  arith,
  p,
  q,
  lookup-optional key "sdpMid" mid (index o (mark "}" ps)),
  lookup-index key o (mark "}" ps),
)

pub or_else-none {ℓ} : {A : Type ℓ} (o : Option A) → or_else o none ≡ o
or_else-none none = refl
or_else-none (some a) = refl

-- What is written of a candidate is written only if there is one.
abbrev pub IsCarried : Option String → Option String → Option ℤ → Type 0
IsCarried none mid o = (mid ≡ none) × (o ≡ none)
IsCarried (some c) mid o = Unit

lookup-candidate :
    (c mid : Option String) (o : Option ℤ) (ps : Pieces)
    → lookup "candidate" (nested c mid o ps) ≡ or_else c (lookup "candidate" ps)
lookup-candidate none mid o ps = refl
lookup-candidate (some c) mid o ps = refl

lookup-mid :
    (c mid : Option String) (o : Option ℤ) (ps : Pieces)
    → IsCarried c mid o
    → lookup "sdpMid" (nested c mid o ps) ≡ or_else mid (lookup "sdpMid" ps)
lookup-mid none mid o ps h = ap (λ (m : Option String). or_else m (lookup "sdpMid" ps)) (sym h.0)
lookup-mid (some c) mid o ps h =
    lookup-optional "sdpMid" "sdpMid" mid (index o (mark "}" ps))
    ∙ ap (or_else mid) (lookup-index "sdpMid" o (mark "}" ps))

number-optional :
    (key name : String) (o : Option String) (ps : Pieces)
    → lookup_number key (optional name o ps) ≡ lookup_number key ps
number-optional key name none ps = refl
number-optional key name (some v) ps = refl

number-index :
    (o : Option ℤ) (ps : Pieces)
    → lookup_number "sdpMlineIndex" (index o ps) ≡ or_else o (lookup_number "sdpMlineIndex" ps)
number-index none ps = refl
number-index (some n) ps = refl

number-nested :
    (c mid : Option String) (o : Option ℤ) (ps : Pieces)
    → IsCarried c mid o
    → lookup_number "sdpMlineIndex" (nested c mid o ps)
      ≡ or_else o (lookup_number "sdpMlineIndex" ps)
number-nested none mid o ps h =
    ap (λ (m : Option ℤ). or_else m (lookup_number "sdpMlineIndex" ps)) (sym h.1)
number-nested (some c) mid o ps h =
    number-optional "sdpMlineIndex" "sdpMid" mid (index o (mark "}" ps))
    ∙ number-index o (mark "}" ps)

module _ (sdp c mid : Option String) (o : Option ℤ) (reason : Option String) where
  last : Pieces
  last = optional "reason" reason (mark "}" done)

  pub lookup-sdp : lookup "sdp" (rest_of sdp c mid o reason) ≡ sdp
  unfolding last
  lookup-sdp =
      lookup-optional "sdp" "sdp" sdp (nested c mid o last)
      ∙ ap (or_else sdp) (
          lookup-nested "sdp" c mid o last refl refl
          ∙ lookup-optional "sdp" "reason" reason (mark "}" done))
      ∙ or_else-none sdp

  pub lookup-rest_candidate : lookup "candidate" (rest_of sdp c mid o reason) ≡ c
  unfolding last
  lookup-rest_candidate =
      lookup-optional "candidate" "sdp" sdp (nested c mid o last)
      ∙ lookup-candidate c mid o last
      ∙ ap (or_else c) (lookup-optional "candidate" "reason" reason (mark "}" done))
      ∙ or_else-none c

  pub lookup-rest_mid : IsCarried c mid o → lookup "sdpMid" (rest_of sdp c mid o reason) ≡ mid
  unfolding last
  lookup-rest_mid h =
      lookup-optional "sdpMid" "sdp" sdp (nested c mid o last)
      ∙ lookup-mid c mid o last h
      ∙ ap (or_else mid) (lookup-optional "sdpMid" "reason" reason (mark "}" done))
      ∙ or_else-none mid

  pub lookup-reason : lookup "reason" (rest_of sdp c mid o reason) ≡ reason
  unfolding last
  lookup-reason =
      lookup-optional "reason" "sdp" sdp (nested c mid o last)
      ∙ lookup-nested "reason" c mid o last refl refl
      ∙ lookup-optional "reason" "reason" reason (mark "}" done)
      ∙ or_else-none reason

  pub number-rest :
      IsCarried c mid o → lookup_number "sdpMlineIndex" (rest_of sdp c mid o reason) ≡ o
  unfolding last
  number-rest h =
      number-optional "sdpMlineIndex" "sdp" sdp (nested c mid o last)
      ∙ number-nested c mid o last h
      ∙ ap (or_else o) (number-optional "sdpMlineIndex" "reason" reason (mark "}" done))
      ∙ or_else-none o

-- The other spelling of the index, where there is none.
pub number-absent :
    (sdp c mid reason : Option String)
    → lookup_number "sdpMLineIndex" (rest_of sdp c mid none reason) ≡ none
number-absent sdp none mid reason =
    number-optional "sdpMLineIndex" "sdp" sdp (optional "reason" reason (mark "}" done))
    ∙ number-optional "sdpMLineIndex" "reason" reason (mark "}" done)
number-absent sdp (some c) mid reason =
    let last = optional "reason" reason (mark "}" done) in
    number-optional "sdpMLineIndex" "sdp" sdp (nested (some c) mid none last)
    ∙ number-optional "sdpMLineIndex" "sdpMid" mid (mark "}" last)
    ∙ number-optional "sdpMLineIndex" "reason" reason (mark "}" done)
