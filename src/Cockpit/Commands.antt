-- ===== src/Cockpit/Commands.antt =====
-- cockpit_client/cockpit_client_app.cc: the commands that web socket clients and the input device send.
-- The command ids are printed only; of them the counter is kept.
use Prim.Native.Char.{Char, code}
use Prim.Native.String.{len, slice}
use text.Mathlib.Text.{find?}
use whl_air.Base.{
  ℕ, ◌+◌, String, ◌==◌, ◌≡◌, ap, Bool, false, ◌||◌, Option, none, some, eqb, arith, if◌then◌else◌,
}
use whl_air.Trim.{is_blank, is_empty, drop_while, until, trim, trim-trim}
use whl_air.Cockpit.Runtime.{RuntimeState, apply_command, transition, acknowledge}

-- The characters ", }\"]".
abbrev is_separator : Char → Bool
is_separator c =
    eqb (code c) 44 || eqb (code c) 32 || eqb (code c) 125 || eqb (code c) 34 || eqb (code c) 93

-- The characters " \t\r\n\"".
abbrev is_padding : Char → Bool
is_padding c = is_blank c || eqb (code c) 34

-- The characters "\" ,}\r\n\t".
abbrev is_end : Char → Bool
is_end c = is_blank c || eqb (code c) 34 || eqb (code c) 44 || eqb (code c) 125

-- What is left of a text from a position on.
abbrev from : String → ℕ → String
from text start = slice text start (len text)

-- The value of the key "cmd" in JSON: `none` where the search goes on to the whole text.
unfoldable pub json_value : String → Option String
unfolding drop_while until
json_value raw = elim (find? raw "\"cmd\"") [
  | none ↦ none
  | some key ↦ elim (find? (from raw key) ":") [
    | none ↦ none
    | some colon ↦
        let value = drop_while is_padding (from raw (key + colon + 1)) in
        if is_empty value then none else some (until is_end value)
  ]
]

-- What is trimmed in the end.
unfoldable pub command_text : String → String
unfolding json_value until
command_text raw = elim (find? raw "cmd=") [
  | some key ↦ until is_separator (from raw (key + 4))
  | none ↦ elim (json_value raw) [ none ↦ raw | some value ↦ value ]
]

unfoldable pub parse_web_command_name : String → String
unfolding command_text trim
parse_web_command_name raw = trim (command_text raw)

-- Without the output that follows an accepted command.
unfoldable pub process_command : RuntimeState → String → String → RuntimeState × Bool
process_command rt source command_name = apply_command rt source command_name

-- With the counter of the command ids.
unfoldable pub handle_ws_message : RuntimeState → String → ℕ → RuntimeState × Bool × ℕ
unfolding process_command parse_web_command_name
handle_ws_message rt raw counter =
    let (next, accepted) = process_command rt "web" (parse_web_command_name raw) in
    (next, accepted, counter + 1)

unfoldable pub handle_input_command : RuntimeState → String → ℕ → RuntimeState × Bool × ℕ
unfolding process_command
handle_input_command rt command_name counter =
    let (next, accepted) = process_command rt "input" command_name in (next, accepted, counter + 1)

-- The names of the commands.
abbrev pub is_known : String → Bool
is_known name =
    name == "TAKEOVER_REQUEST"
    || name == "FORWARD"
    || name == "STOP"
    || name == "EMERGENCY_STOP"
    || name == "RECOVER_AUTO"

apply_command-unknown :
    (rt : RuntimeState) (source name : String)
    → is_known name ≡ false
    → apply_command rt source name ≡ (rt, false)
unfolding apply_command transition acknowledge
apply_command-unknown rt source name h = ground arith

-- A message of a web socket client whose command, which is parsed without blanks around it, is none of
-- the five is refused and leaves the state as it was; its command id is used up.
unknown_message_refused :
    (rt : RuntimeState) (raw : String) (counter : ℕ)
    → is_known (parse_web_command_name raw) ≡ false
    → (handle_ws_message rt raw counter ≡ (rt, false, counter + 1))
      × (trim (parse_web_command_name raw) ≡ parse_web_command_name raw)
unfolding handle_ws_message process_command parse_web_command_name
unknown_message_refused rt raw counter h = (
  ap (λ (r : RuntimeState × Bool). (r.0, r.1, counter + 1))
      (apply_command-unknown rt "web" (parse_web_command_name raw) h),
  trim-trim (command_text raw),
)
