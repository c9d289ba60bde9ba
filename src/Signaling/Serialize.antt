-- ===== src/Signaling/Serialize.antt =====
-- signaling/signaling_message.cc, SerializeSignalMessage.
use Prim.Native.Nat.{◌/◌, ◌%◌}
use Prim.Native.String.{slice}
use whl_air.Base.{ℕ, zero, suc, String, ◌<>◌, Option, none, some, ltb, if◌then◌else◌}
use whl_air.Base.Int.{ℤ, pos, negsuc}
use whl_air.Signaling.Message.{SignalMessage, type_to_string}

unfoldable pub digit : ℕ → String
digit n = slice "0123456789" n (suc n)

-- The decimal digits of a number below 10 ^ fuel.
unfoldable pub decimal : ℕ → ℕ → String
unfolding digit
decimal zero n = ""
decimal (suc fuel) n =
    let rest = decimal fuel (n / 10) in if ltb n 10 then digit n else rest <> digit (n % 10)

-- `std::to_string` of a 32-bit int, which has ten digits at most.
unfoldable pub to_string : ℤ → String
unfolding decimal
to_string (pos n) = decimal 10 n
to_string (negsuc n) = "-" <> decimal 10 (suc n)

-- `if (value) json_str += before + *value + after`
unfoldable pub field : Option String → String → String
field none before = ""
field (some text) before = before <> text <> "\""

-- Both spellings of the index.
unfoldable pub index_fields : Option ℤ → String
unfolding to_string
index_fields none = ""
index_fields (some index) =
    ",\"sdpMlineIndex\":" <> to_string index <> ",\"sdpMLineIndex\":" <> to_string index

-- The object of a candidate with what belongs to it.
unfoldable pub candidate_object : Option String → Option String → Option ℤ → String
unfolding field index_fields
candidate_object none sdp_mid sdp_mline_index = ""
candidate_object (some text) sdp_mid sdp_mline_index =
    ",\"candidate\":{\"candidate\":\""
    <> text
    <> "\""
    <> field sdp_mid ",\"sdpMid\":\""
    <> index_fields sdp_mline_index
    <> "}"

unfoldable pub serialize_signal_message : SignalMessage → String
unfolding field candidate_object type_to_string
serialize_signal_message msg =
    "{\"type\":\""
    <> type_to_string msg.type
    <> "\",\"from\":\""
    <> msg.from
    <> "\",\"to\":\""
    <> msg.to
    <> "\""
    <> field msg.sdp ",\"sdp\":\""
    <> candidate_object msg.candidate msg.sdp_mid msg.sdp_mline_index
    <> field msg.reason ",\"reason\":\""
    <> "}"
