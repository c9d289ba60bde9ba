-- ===== src/Signaling/Message.antt =====
-- signaling/signaling_message.{h,cc}: the structured payload of one signaling message, and the names
-- of its types.
use whl_air.Base.{String, ◌==◌, Option, none, if◌then◌else◌}
use whl_air.Base.Int.{ℤ}

-- `SignalMessage::Type`
pub data MessageType : Type 0 where
  unknown join leave offer answer candidate : MessageType

pub record SignalMessage : Type 0 where
  pub type : MessageType
  pub from : String
  pub to : String
  pub sdp : Option String
  pub candidate : Option String
  pub sdp_mid : Option String
  pub sdp_mline_index : Option ℤ
  pub reason : Option String

-- The constructor with three arguments: the optional fields are empty.
abbrev pub message : MessageType → String → String → SignalMessage
message msg_type sender receiver = record {
  type = msg_type;
  from = sender;
  to = receiver;
  sdp = none;
  candidate = none;
  sdp_mid = none;
  sdp_mline_index = none;
  reason = none;
}

-- `typeToStringMap` and TypeToString: every type is in the map.
unfoldable pub type_to_string : MessageType → String
type_to_string unknown = "unknown"
type_to_string join = "join"
type_to_string leave = "leave"
type_to_string offer = "offer"
type_to_string answer = "answer"
type_to_string candidate = "candidate"

-- `stringToTypeMap` and StringToType: a name that is not in the map is of type UNKNOWN.
unfoldable pub string_to_type : String → MessageType
string_to_type s =
    if s == "unknown"
    then unknown
    else if s == "join"
    then join
    else if s == "leave"
    then leave
    else if s == "offer"
    then offer
    else if s == "answer"
    then answer
    else if s == "candidate"
    then candidate
    else unknown
