-- ===== src/Signaling/Writable.antt =====
-- signaling/signaling_message.cc: the messages that are the same after they have been serialized and
-- parsed.
use Prim.Native.Char.{Char}
use Prim.Native.String.{◌∷◌}
use whl_air.Base.{String, ◌≡◌, refl, ap, sym, ◌∙◌, true, false, Option, none, some}
use whl_air.Base.Int.{ℤ}
use whl_air.Signaling.Message.{SignalMessage, type_to_string}
use whl_air.Signaling.Names.{string_to_type-type_to_string}
use whl_air.Signaling.Serialize.{serialize_signal_message}
use whl_air.Signaling.Deserialize.{
  find_quoted_value, find_int_value, parsed, read_type, or_default, deserialize_signal_message,
}
use whl_air.Signaling.Numbers.{IsInt}
use whl_air.Signaling.Pieces.{
  IsPlain, is_letter, same, lookup, lookup_number, or_else, IsLaidOut, NamesNoText, Pieces,
}
use whl_air.Signaling.Pieces.Reading.{find_quoted_value-render, find_int_value-render}
use whl_air.Signaling.Pieces.Layout.{header, rest_of, fields, serialize-render}
use whl_air.Signaling.Pieces.Fields.{
  IsAbsentOr, written-IsPlain, type_to_string-IsPlain, rest_of-IsLaidOut,
}
use whl_air.Signaling.Pieces.Naming.{names_no_number, names_no_text}
use whl_air.Signaling.Pieces.Values.{
  IsCarried, lookup-sdp, lookup-rest_candidate, lookup-rest_mid, lookup-reason, number-rest,
  number-absent, or_else-none,
}

-- What the format can carry: texts without quotes, an int for the index, and what belongs to a
-- candidate only with one.
pub record IsWritable (m : SignalMessage) : Type 0 where
  pub from_plain : IsPlain m.from
  pub to_plain : IsPlain m.to
  pub sdp_plain : IsAbsentOr IsPlain m.sdp
  pub candidate_plain : IsAbsentOr IsPlain m.candidate
  pub mid_plain : IsAbsentOr IsPlain m.sdp_mid
  pub index_int : IsAbsentOr IsInt m.sdp_mline_index
  pub reason_plain : IsAbsentOr IsPlain m.reason
  pub carried : IsCarried m.candidate m.sdp_mid m.sdp_mline_index

module _ (m : SignalMessage) (w : IsWritable m) where
  abbrev whole : Pieces
  whole = header (type_to_string m.type) m.from m.to (fields m)

  whole-IsLaidOut : IsLaidOut whole ""
  whole-IsLaidOut =
      let rest =
        rest_of-IsLaidOut m.sdp m.candidate m.sdp_mid m.sdp_mline_index m.reason w.sdp_plain
          w.candidate_plain w.mid_plain w.index_int w.reason_plain in
      (
        refl,
        refl,
        refl,
        (
          written-IsPlain "type" refl,
          type_to_string-IsPlain m.type,
          (
            refl,
            refl,
            refl,
            (
              written-IsPlain "from" refl,
              w.from_plain,
              (refl, refl, refl, (written-IsPlain "to" refl, w.to_plain, rest)),
            ),
          ),
        ),
      )

  read_text :
      (k : Char) (key : String)
      → is_letter k ≡ true
      → IsPlain (k ∷ key)
      → same "sdpMlineIndex" (k ∷ key) ≡ false
      → same "sdpMLineIndex" (k ∷ key) ≡ false
      → find_quoted_value (serialize_signal_message m) (k ∷ key)
        ≡ or_else (lookup (k ∷ key) whole) (find_quoted_value "" (k ∷ key))
  read_text k key l p q r =
      ap (λ (s : String). find_quoted_value s (k ∷ key)) (serialize-render m)
      ∙ find_quoted_value-render k key whole "" l p whole-IsLaidOut
          (names_no_number m.sdp m.candidate m.sdp_mid m.sdp_mline_index m.reason (k ∷ key) q r)

  read_number :
      (k : Char) (key : String)
      → is_letter k ≡ true
      → IsPlain (k ∷ key)
      → NamesNoText (k ∷ key) whole
      → find_int_value (serialize_signal_message m) (k ∷ key)
        ≡ or_else (lookup_number (k ∷ key) whole) (find_int_value "" (k ∷ key))
  read_number k key l p n =
      ap (λ (s : String). find_int_value s (k ∷ key)) (serialize-render m)
      ∙ find_int_value-render k key whole "" l p whole-IsLaidOut n

  read_type_name :
      find_quoted_value (serialize_signal_message m) "type" ≡ some (type_to_string m.type)
  read_type_name = read_text "t" "ype" refl (written-IsPlain "type" refl) refl refl

  read_from : find_quoted_value (serialize_signal_message m) "from" ≡ some m.from
  read_from = read_text "f" "rom" refl (written-IsPlain "from" refl) refl refl

  read_to : find_quoted_value (serialize_signal_message m) "to" ≡ some m.to
  read_to = read_text "t" "o" refl (written-IsPlain "to" refl) refl refl

  -- A field that may be absent.
  read_optional :
      (k : Char) (key : String) (o : Option String)
      → is_letter k ≡ true
      → IsPlain (k ∷ key)
      → same "sdpMlineIndex" (k ∷ key) ≡ false
      → same "sdpMLineIndex" (k ∷ key) ≡ false
      → lookup (k ∷ key) whole ≡ o
      → find_quoted_value "" (k ∷ key) ≡ none
      → find_quoted_value (serialize_signal_message m) (k ∷ key) ≡ o
  read_optional k key o l p q r e f =
      read_text k key l p q r
      ∙ ap (λ (u : Option String). or_else u (find_quoted_value "" (k ∷ key))) e
      ∙ ap (or_else o) f
      ∙ or_else-none o

  read_sdp : find_quoted_value (serialize_signal_message m) "sdp" ≡ m.sdp
  unfolding find_quoted_value
  read_sdp =
      read_optional "s" "dp" m.sdp refl (written-IsPlain "sdp" refl) refl refl
        (lookup-sdp m.sdp m.candidate m.sdp_mid m.sdp_mline_index m.reason) refl

  read_candidate : find_quoted_value (serialize_signal_message m) "candidate" ≡ m.candidate
  unfolding find_quoted_value
  read_candidate =
      read_optional "c" "andidate" m.candidate refl (written-IsPlain "candidate" refl) refl refl
        (lookup-rest_candidate m.sdp m.candidate m.sdp_mid m.sdp_mline_index m.reason) refl

  read_mid : find_quoted_value (serialize_signal_message m) "sdpMid" ≡ m.sdp_mid
  unfolding find_quoted_value
  read_mid =
      read_optional "s" "dpMid" m.sdp_mid refl (written-IsPlain "sdpMid" refl) refl refl
        (lookup-rest_mid m.sdp m.candidate m.sdp_mid m.sdp_mline_index m.reason w.carried) refl

  read_reason : find_quoted_value (serialize_signal_message m) "reason" ≡ m.reason
  unfolding find_quoted_value
  read_reason =
      read_optional "r" "eason" m.reason refl (written-IsPlain "reason" refl) refl refl
        (lookup-reason m.sdp m.candidate m.sdp_mid m.sdp_mline_index m.reason) refl

  unnamed :
      (key : String)
      → same "sdp" key ≡ false
      → same "candidate" key ≡ false
      → same "sdpMid" key ≡ false
      → same "reason" key ≡ false
      → NamesNoText key (fields m)
  unnamed key = names_no_text m.sdp m.candidate m.sdp_mid m.sdp_mline_index m.reason key

  read_index : find_int_value (serialize_signal_message m) "sdpMlineIndex" ≡ m.sdp_mline_index
  unfolding find_int_value
  read_index =
      read_number "s" "dpMlineIndex" refl (written-IsPlain "sdpMlineIndex" refl)
        (refl, (refl, (refl, unnamed "sdpMlineIndex" refl refl refl refl)))
      ∙ ap (λ (o : Option ℤ). or_else o none)
          (number-rest m.sdp m.candidate m.sdp_mid m.sdp_mline_index m.reason w.carried)
      ∙ or_else-none m.sdp_mline_index

  read_other_index :
      m.sdp_mline_index ≡ none → find_int_value (serialize_signal_message m) "sdpMLineIndex" ≡ none
  unfolding find_int_value
  read_other_index e =
      read_number "s" "dpMLineIndex" refl (written-IsPlain "sdpMLineIndex" refl)
        (refl, (refl, (refl, unnamed "sdpMLineIndex" refl refl refl refl)))
      ∙ ap (λ (o : Option ℤ). or_else o none)
          (ap
              (λ (o : Option ℤ).
                lookup_number "sdpMLineIndex" (rest_of m.sdp m.candidate m.sdp_mid o m.reason))
              e
            ∙ number-absent m.sdp m.candidate m.sdp_mid m.reason)

-- The first spelling of the index, or else the second.
either :
    (first second o : Option ℤ)
    → first ≡ o
    → (o ≡ none → second ≡ none)
    → elim first [ some index ↦ some index | none ↦ second ] ≡ o
either none second o e h = h (sym e) ∙ e
either (some n) second o e h = e

-- A message that the format can carry is the same after it has been serialized and parsed: its texts
-- hold no quotes, its index is an int, and it has a media id or an index only with a candidate.
pub writable_survives :
    (m : SignalMessage)
    → IsWritable m
    → deserialize_signal_message (serialize_signal_message m) ≡ some m
unfolding deserialize_signal_message parsed read_type or_default
writable_survives m w = λ i. some (record {
  type = (ap read_type (read_type_name m w) ∙ string_to_type-type_to_string m.type) i;
  from = ap (λ (o : Option String). or_default o "") (read_from m w) i;
  to = ap (λ (o : Option String). or_default o "") (read_to m w) i;
  sdp = read_sdp m w i;
  candidate = read_candidate m w i;
  sdp_mid = read_mid m w i;
  sdp_mline_index =
      either (find_int_value (serialize_signal_message m) "sdpMlineIndex")
        (find_int_value (serialize_signal_message m) "sdpMLineIndex") m.sdp_mline_index
        (read_index m w) (read_other_index m w) i;
  reason = read_reason m w i;
})
