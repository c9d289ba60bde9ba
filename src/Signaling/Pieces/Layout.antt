-- ===== src/Signaling/Pieces/Layout.antt =====
-- SerializeSignalMessage of signaling/signaling_message.cc writes pieces.
use Prim.Native.Char.{Char}
use Prim.Native.String.{[], ◌∷◌}
use whl_air.Base.{String, ◌≡◌, refl, ap, ◌∙◌, Option, none, some}
use whl_air.Base.Int.{ℤ}
use whl_air.Signaling.Message.{SignalMessage, type_to_string}
use whl_air.Signaling.Serialize.{serialize_signal_message, field, index_fields, candidate_object}
use whl_air.Signaling.Pieces.{
  Pieces, done, text_of, number_of, opened, mark, quote, colon, cat, render,
}
use whl_air.Signaling.Pieces.Reading.{append-cat}

abbrev comma : Char
comma = ","

-- A field that is written if it has a value.
abbrev pub optional : String → Option String → Pieces → Pieces
optional name none ps = ps
optional name (some v) ps = mark "," (text_of name v ps)

abbrev pub index : Option ℤ → Pieces → Pieces
index none ps = ps
index (some n) ps =
    mark "," (number_of "sdpMlineIndex" n (mark "," (number_of "sdpMLineIndex" n ps)))

abbrev pub nested : Option String → Option String → Option ℤ → Pieces → Pieces
nested none mid n ps = ps
nested (some c) mid n ps =
    mark ","
      (opened "candidate" (text_of "candidate" c (optional "sdpMid" mid (index n (mark "}" ps)))))

-- The fields that may be absent.
abbrev pub rest_of :
    Option String → Option String → Option String → Option ℤ → Option String → Pieces
rest_of sdp c mid o reason =
    optional "sdp" sdp (nested c mid o (optional "reason" reason (mark "}" done)))

abbrev pub fields : SignalMessage → Pieces
fields m = rest_of m.sdp m.candidate m.sdp_mid m.sdp_mline_index m.reason

-- The fields that every message has.
abbrev pub header : String → String → String → Pieces → Pieces
header name from to ps =
    mark "{" (text_of "type" name (mark "," (text_of "from" from (mark "," (text_of "to" to ps)))))

cat_assoc : (r s t : String) → cat (cat r s) t ≡ cat r (cat s t)
cat_assoc [] s t = refl
cat_assoc (c ∷ r) s t = ap (λ (w : String). c ∷ w) (cat_assoc r s t)

-- What is written in front of a text.
field-cat :
    (before text rest : String)
    → cat (field (some text) before) rest ≡ cat before (cat text (quote ∷ rest))
unfolding field
field-cat before text rest = simp (append-cat, cat_assoc)

field-optional :
    (before name : String)
    → ((w : String) → cat before w ≡ comma ∷ quote ∷ cat name (quote ∷ colon ∷ quote ∷ w))
    → (o : Option String) (ps : Pieces)
    → cat (field o before) (render ps "") ≡ render (optional name o ps) ""
unfolding field
field-optional before name opening none ps = refl
field-optional before name opening (some v) ps =
    field-cat before v (render ps "") ∙ opening (cat v (quote ∷ render ps ""))

index_fields-index :
    (o : Option ℤ) (ps : Pieces) → cat (index_fields o) (render ps "") ≡ render (index o ps) ""
unfolding index_fields
index_fields-index none ps = refl
index_fields-index (some n) ps = simp (append-cat, cat_assoc)

candidate_object-nested :
    (c mid : Option String) (n : Option ℤ) (ps : Pieces)
    → cat (candidate_object c mid n) (render ps "") ≡ render (nested c mid n ps) ""
unfolding candidate_object
candidate_object-nested none mid n ps = refl
candidate_object-nested (some c) mid n ps =
    let told =
      ap (cat (field mid ",\"sdpMid\":\"")) (index_fields-index n (mark "}" ps))
      ∙ field-optional ",\"sdpMid\":\"" "sdpMid" (λ w. refl) mid (index n (mark "}" ps)) in
    let laid : cat (candidate_object (some c) mid n) (render ps "")
        ≡ cat ",\"candidate\":{\"candidate\":\"" (
            cat c (
              quote
              ∷ cat (field mid ",\"sdpMid\":\"")
                  (cat (index_fields n) (render (mark "}" ps) "")))) =
      simp (append-cat, cat_assoc) in
    laid ∙ ap (λ (w : String). cat ",\"candidate\":{\"candidate\":\"" (cat c (quote ∷ w))) told

pub serialize-render :
    (m : SignalMessage)
    → serialize_signal_message m ≡ render (header (type_to_string m.type) m.from m.to (fields m)) ""
unfolding serialize_signal_message
serialize-render m =
    let last = field-optional ",\"reason\":\"" "reason" (λ w. refl) m.reason (mark "}" done) in
    let mid =
      ap (cat (candidate_object m.candidate m.sdp_mid m.sdp_mline_index)) last
      ∙ candidate_object-nested m.candidate m.sdp_mid m.sdp_mline_index
          (optional "reason" m.reason (mark "}" done)) in
    let told =
      ap (cat (field m.sdp ",\"sdp\":\"")) mid
      ∙ field-optional ",\"sdp\":\"" "sdp" (λ w. refl) m.sdp
          (nested m.candidate m.sdp_mid m.sdp_mline_index
            (optional "reason" m.reason (mark "}" done))) in
    let laid : serialize_signal_message m
        ≡ cat "{\"type\":\"" (
            cat (type_to_string m.type) (
              cat "\",\"from\":\"" (
                cat m.from (
                  cat "\",\"to\":\"" (
                    cat m.to (
                      quote
                      ∷ cat (field m.sdp ",\"sdp\":\"") (
                          cat (candidate_object m.candidate m.sdp_mid m.sdp_mline_index) (
                            cat (field m.reason ",\"reason\":\"")
                              (render (mark "}" done) ""))))))))) =
      simp append-cat in
    laid
    ∙ ap
        (λ (w : String). cat "{\"type\":\"" (
          cat (type_to_string m.type)
            (cat "\",\"from\":\"" (cat m.from (cat "\",\"to\":\"" (cat m.to (quote ∷ w)))))))
        told
