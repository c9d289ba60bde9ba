-- ===== src/Signaling/Client/Payloads.antt =====
-- Received texts in signaling/signaling_client.cc: what becomes of them.
use whl_air.Base.{String, ◌≡◌, refl, ap, ◌∙◌, Option, none, some, List, [], ◌∷◌}
use whl_air.Signaling.Message.{SignalMessage, MessageType, unknown, string_to_type}
use whl_air.Signaling.Deserialize.{
  find_quoted_value, parsed, read_type, or_default, deserialize_signal_message,
}
use whl_air.Signaling.Scan.{quoted_value}
use whl_air.Signaling.Scan.Equivalence.{find_quoted_value-quoted_value}
use whl_air.Signaling.Client.{IWebsocket, Client, Handler, Report, message_received, on_message}

-- The branch of onMessage for a message.
abbrev report : SignalMessage → Option Handler → List Report
report msg none = []
report msg (some handler) = message_received handler msg ∷ []

-- What a name of a type and a text mean, if they are there.
pub type_meant : Option String → MessageType
type_meant none = unknown
type_meant (some name) = string_to_type name

pub text_meant : Option String → String
text_meant none = ""
text_meant (some text) = text

read_type-meant : (o : Option String) → read_type o ≡ type_meant o
unfolding read_type type_meant
read_type-meant none = refl
read_type-meant (some name) = refl

or_default-meant : (o : Option String) → or_default o "" ≡ text_meant o
unfolding or_default text_meant
or_default-meant none = refl
or_default-meant (some text) = refl

module _ {net : IWebsocket} (c : Client net) (payload : String) (handler : Handler) where
  delivered :
      c.on_message_received_handler ≡ some handler
      → on_message c payload ≡ message_received handler (parsed payload) ∷ []
  unfolding on_message deserialize_signal_message
  delivered registered = ap (report (parsed payload)) registered

  -- Where the application has registered a message handler, every received text, a message or not, is
  -- handed to it as one message, and no parse error is reported. Its type is the one that the value behind the first
  -- occurrence of the key "type" names, UNKNOWN if there is none; its sender is the value behind the
  -- first occurrence of the key "from", empty if there is none.
  pub every_text-delivered :
      c.on_message_received_handler ≡ some handler
      → (msg : SignalMessage) × (on_message c payload ≡ message_received handler msg ∷ [])
        × (msg.type ≡ type_meant (quoted_value payload "type"))
        × (msg.from ≡ text_meant (quoted_value payload "from"))
  unfolding parsed
  every_text-delivered registered = (
    parsed payload,
    delivered registered,
    read_type-meant (find_quoted_value payload "type")
        ∙ ap type_meant (find_quoted_value-quoted_value payload "type"),
    or_default-meant (find_quoted_value payload "from")
        ∙ ap text_meant (find_quoted_value-quoted_value payload "from"),
  )
