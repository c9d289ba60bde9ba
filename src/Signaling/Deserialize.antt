-- ===== src/Signaling/Deserialize.antt =====
-- signaling/signaling_message.cc, DeserializeSignalMessage: the parser that searches the text for the
-- keys. Positions are bytes, as in the source.
use Prim.Native.String.{len, slice}
use text.Mathlib.Text.{find?}
use whl_air.Base.{ℕ, ◌+◌, String, ◌<>◌, Option, none, some, ltb, if◌then◌else◌}
use whl_air.Base.Int.{ℤ}
use whl_air.Stoi.{stoi}
use whl_air.Signaling.Message.{SignalMessage, MessageType, unknown, string_to_type}

-- `data.find(token, start)`
unfoldable pub find_from : String → String → ℕ → Option ℕ
find_from payload token start = elim (find? (slice payload start (len payload)) token) [
  | none ↦ none
  | some at ↦ some (start + at)
]

-- The lambda `findQuotedValue`.
unfoldable pub find_quoted_value : String → String → Option String
unfolding find_from
find_quoted_value payload key =
    let token : String = "\"" <> key <> "\":\"" in
    elim (find? payload token) [
      | none ↦ none
      | some at ↦
          let start = at + len token in
          elim (find_from payload "\"" start) [
            | none ↦ none
            | some stop ↦ some (slice payload start stop)
          ]
    ]

-- `data.find_first_of(",}", start)`: the earlier of the two.
unfoldable pub find_end : String → ℕ → Option ℕ
unfolding find_from
find_end payload start = elim (find_from payload "," start) [
  | none ↦ find_from payload "}" start
  | some comma ↦ elim (find_from payload "}" start) [
    | none ↦ some comma
    | some brace ↦ some (if ltb brace comma then brace else comma)
  ]
]

-- The lambda `findIntValue`.
unfoldable pub find_int_value : String → String → Option ℤ
unfolding find_end stoi
find_int_value payload key =
    let token : String = "\"" <> key <> "\":" in
    elim (find? payload token) [
      | none ↦ none
      | some at ↦
          let start = at + len token in
          elim (find_end payload start) [
            | none ↦ none
            | some stop ↦ stoi (slice payload start stop)
          ]
    ]

-- A field that keeps its initial value where the key is not found.
unfoldable pub or_default {ℓ} : {A : Type ℓ} → Option A → A → A
or_default none default = default
or_default (some a) default = a

unfoldable pub read_type : Option String → MessageType
unfolding string_to_type
read_type none = unknown
read_type (some name) = string_to_type name

-- The fields that are found.
unfoldable pub parsed : String → SignalMessage
unfolding find_quoted_value find_int_value or_default read_type
parsed payload = record {
  type = read_type (find_quoted_value payload "type");
  from = or_default (find_quoted_value payload "from") "";
  to = or_default (find_quoted_value payload "to") "";
  sdp = find_quoted_value payload "sdp";
  candidate = find_quoted_value payload "candidate";
  sdp_mid = find_quoted_value payload "sdpMid";
  sdp_mline_index = elim (find_int_value payload "sdpMlineIndex") [
    | some index ↦ some index
    | none ↦ find_int_value payload "sdpMLineIndex"
  ];
  reason = find_quoted_value payload "reason";
}

-- Nothing that the function calls throws past it, so it always returns a message.
unfoldable pub deserialize_signal_message : String → Option SignalMessage
unfolding parsed
deserialize_signal_message payload = some (parsed payload)
