-- ===== src/Signaling/RoundTrip.antt =====
-- signaling/signaling_message.cc: what is left of any message that is serialized and parsed again.
use Prim.Native.Char.{Char}
use Prim.Native.String.{◌∷◌}
use whl_air.Base.{String, ◌≡◌, refl, ap, ◌∙◌, true, Option, none, some}
use whl_air.Base.Int.{ℤ}
use whl_air.Signaling.Message.{SignalMessage, type_to_string}
use whl_air.Signaling.Names.{string_to_type-type_to_string}
use whl_air.Signaling.Serialize.{serialize_signal_message}
use whl_air.Signaling.Deserialize.{
  find_quoted_value, parsed, read_type, or_default, deserialize_signal_message,
}
use whl_air.Signaling.Pieces.{
  Pieces, done, IsPlain, is_letter, IsNext, IsLaidOut, render, lookup, or_else,
}
use whl_air.Signaling.Pieces.Reading.{find_quoted_value-render}
use whl_air.Signaling.Pieces.Layout.{header, rest_of, fields, serialize-render}
use whl_air.Signaling.Pieces.Fields.{written-IsPlain, type_to_string-IsPlain}

-- Whatever the fields hold that may be absent, their text begins with a comma or a brace.
rest_of-IsNext :
    (sdp c mid : Option String) (o : Option ℤ) (reason : Option String)
    → IsNext (render (rest_of sdp c mid o reason) "")
rest_of-IsNext (some v) c mid o reason = (refl, refl)
rest_of-IsNext none (some c) mid o reason = (refl, refl)
rest_of-IsNext none none mid o (some v) = (refl, refl)
rest_of-IsNext none none mid o none = (refl, refl)

module _ (m : SignalMessage) where
  abbrev opening : Pieces
  opening = header (type_to_string m.type) m.from m.to done

  abbrev tail : String
  tail = render (fields m) ""

  opening-IsLaidOut : IsPlain m.from → IsPlain m.to → IsLaidOut opening tail
  opening-IsLaidOut p q =
      let rest = rest_of-IsNext m.sdp m.candidate m.sdp_mid m.sdp_mline_index m.reason in
      (
        refl,
        refl,
        refl,
        (
          written-IsPlain "type" refl,
          type_to_string-IsPlain m.type,
          (
            refl,
            refl,
            refl,
            (
              written-IsPlain "from" refl,
              p,
              (refl, refl, refl, (written-IsPlain "to" refl, q, rest)),
            ),
          ),
        ),
      )

  read_text :
      (k : Char) (key : String)
      → is_letter k ≡ true
      → IsPlain (k ∷ key)
      → IsPlain m.from
      → IsPlain m.to
      → find_quoted_value (serialize_signal_message m) (k ∷ key)
        ≡ or_else (lookup (k ∷ key) opening) (find_quoted_value tail (k ∷ key))
  read_text k key l r p q =
      ap (λ (s : String). find_quoted_value s (k ∷ key)) (serialize-render m)
      ∙ find_quoted_value-render k key opening tail l r (opening-IsLaidOut p q) tt

-- A message that is serialized and parsed again has its type, its sender and its recipient, if neither
-- name holds a quote, whatever its other texts hold, quotes and keys among them.
pub deserialize-serialize :
    (m : SignalMessage)
    → IsPlain m.from
    → IsPlain m.to
    → (got : SignalMessage) × (deserialize_signal_message (serialize_signal_message m) ≡ some got)
      × (got.type ≡ m.type)
      × (got.from ≡ m.from)
      × (got.to ≡ m.to)
unfolding deserialize_signal_message parsed read_type or_default
deserialize-serialize m p q = (
  parsed (serialize_signal_message m),
  refl,
  ap read_type (read_text m "t" "ype" refl (written-IsPlain "type" refl) p q)
      ∙ string_to_type-type_to_string m.type,
  ap (λ (o : Option String). or_default o "")
      (read_text m "f" "rom" refl (written-IsPlain "from" refl) p q),
  ap (λ (o : Option String). or_default o "")
      (read_text m "t" "o" refl (written-IsPlain "to" refl) p q),
)
