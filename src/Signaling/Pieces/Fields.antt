-- ===== src/Signaling/Pieces/Fields.antt =====
-- The pieces that SerializeSignalMessage of signaling/signaling_message.cc writes: that they are laid
-- out, and what stands in them.
use Prim.Native.Char.{code}
use Prim.Native.String.{[], ◌∷◌}
use whl_air.Base.{eqb, not, ◌&&◌, String, ◌≡◌, refl, Bool, true, Option, none, some, arith}
use whl_air.Base.Int.{ℤ}
use whl_air.Signaling.Message.{
  MessageType, unknown, join, leave, offer, answer, candidate, type_to_string,
}
use whl_air.Signaling.Numbers.{IsInt, stoi-to_string, to_string-IsNumberText}
use whl_air.Signaling.Pieces.{Pieces, done, mark, IsPlain, IsLaidOut}
use whl_air.Signaling.Pieces.Layout.{optional, index, nested, rest_of}

abbrev pub IsAbsentOr {ℓ ℓ'} : {A : Type ℓ} → (A → Type ℓ') → Option A → Type ℓ'
IsAbsentOr P none = Unit
IsAbsentOr P (some a) = P a

-- Computes for the names of the fields.
abbrev is_plain : String → Bool
is_plain [] = true
is_plain (c ∷ s) = not (eqb (code c) 34) && is_plain s

pub written-IsPlain : (s : String) → is_plain s ≡ true → IsPlain s
written-IsPlain [] e = tt
written-IsPlain (c ∷ s) e = (ground (arith, e), written-IsPlain s (ground (arith, e)))

optional-IsLaidOut :
    (name : String) (o : Option String) (ps : Pieces)
    → IsPlain name
    → IsAbsentOr IsPlain o
    → IsLaidOut ps ""
    → IsLaidOut (optional name o ps) ""
optional-IsLaidOut name none ps p q h = h
optional-IsLaidOut name (some v) ps p q h = (refl, refl, refl, (p, q, h))

index-IsLaidOut :
    (o : Option ℤ) (ps : Pieces)
    → IsAbsentOr IsInt o
    → IsLaidOut ps ""
    → IsLaidOut (index o (mark "}" ps)) ""
index-IsLaidOut none ps q h = (refl, refl, refl, h)
index-IsLaidOut (some n) ps q h =
    let first = written-IsPlain "sdpMlineIndex" refl in
    let second = written-IsPlain "sdpMLineIndex" refl in
    let number = to_string-IsNumberText n q in
    let read = stoi-to_string n q in
    (
      refl,
      refl,
      refl,
      (
        first,
        number,
        read,
        refl,
        (refl, refl, refl, (second, number, read, refl, (refl, refl, refl, h))),
      ),
    )

nested-IsLaidOut :
    (c mid : Option String) (o : Option ℤ) (ps : Pieces)
    → IsAbsentOr IsPlain c
    → IsAbsentOr IsPlain mid
    → IsAbsentOr IsInt o
    → IsLaidOut ps ""
    → IsLaidOut (nested c mid o ps) ""
nested-IsLaidOut none mid o ps p q r h = h
nested-IsLaidOut (some c) mid o ps p q r h =
    let name = written-IsPlain "candidate" refl in
    let rest = index-IsLaidOut o ps r h in
    (
      refl,
      refl,
      refl,
      (
        name,
        (
          name,
          p,
          optional-IsLaidOut "sdpMid" mid (index o (mark "}" ps)) (written-IsPlain "sdpMid" refl) q
              rest,
        ),
      ),
    )

pub rest_of-IsLaidOut :
    (sdp c mid : Option String) (o : Option ℤ) (reason : Option String)
    → IsAbsentOr IsPlain sdp
    → IsAbsentOr IsPlain c
    → IsAbsentOr IsPlain mid
    → IsAbsentOr IsInt o
    → IsAbsentOr IsPlain reason
    → IsLaidOut (rest_of sdp c mid o reason) ""
rest_of-IsLaidOut sdp c mid o reason a b d e f =
    let last =
      optional-IsLaidOut "reason" reason (mark "}" done) (written-IsPlain "reason" refl) f
        (refl, refl, refl, tt) in
    optional-IsLaidOut "sdp" sdp (nested c mid o (optional "reason" reason (mark "}" done)))
      (written-IsPlain "sdp" refl) a
      (nested-IsLaidOut c mid o (optional "reason" reason (mark "}" done)) b d e last)

pub type_to_string-IsPlain : (t : MessageType) → IsPlain (type_to_string t)
unfolding type_to_string
type_to_string-IsPlain unknown = written-IsPlain "unknown" refl
type_to_string-IsPlain join = written-IsPlain "join" refl
type_to_string-IsPlain leave = written-IsPlain "leave" refl
type_to_string-IsPlain offer = written-IsPlain "offer" refl
type_to_string-IsPlain answer = written-IsPlain "answer" refl
type_to_string-IsPlain candidate = written-IsPlain "candidate" refl
