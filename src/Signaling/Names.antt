-- ===== src/Signaling/Names.antt =====
-- signaling/signaling_message.cc: that the two maps of type names are inverse.
use whl_air.Base.{String, ◌≡◌, refl, ◌⊎◌, eq_iff, arith}
use whl_air.Signaling.Message.{MessageType, unknown, type_to_string, string_to_type}

pub string_to_type-type_to_string : (t : MessageType) → string_to_type (type_to_string t) ≡ t
unfolding string_to_type type_to_string
string_to_type-type_to_string unknown = refl
string_to_type-type_to_string t = refl

type_to_string-string_to_type :
    (s : String) → (string_to_type s ≡ unknown) ⊎ (type_to_string (string_to_type s) ≡ s)
unfolding string_to_type type_to_string
type_to_string-string_to_type s = ground (
  arith,
  eq_iff s "unknown",
  eq_iff s "join",
  eq_iff s "leave",
  eq_iff s "offer",
  eq_iff s "answer",
  eq_iff s "candidate",
)

-- Every message type survives its name, and every name that is read as a type other than UNKNOWN is
-- the name of that type.
type_names-inverse :
    (t : MessageType) (s : String)
    → (string_to_type (type_to_string t) ≡ t)
      × ((string_to_type s ≡ unknown) ⊎ (type_to_string (string_to_type s) ≡ s))
type_names-inverse t s = (string_to_type-type_to_string t, type_to_string-string_to_type s)
