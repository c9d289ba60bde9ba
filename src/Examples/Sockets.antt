-- ===== src/Examples/Sockets.antt =====
-- Concrete runs of the signaling client, over a library that counts the calls that reach it.
use whl_air.Base.{ℕ, suc, ◌≡◌, refl, true, none, some, List, [], ◌∷◌}
use whl_air.Signaling.Message.{SignalMessage, message, join}
use whl_air.Signaling.Scan.{quoted_value}
use whl_air.Signaling.Client.Payloads.{type_meant, text_meant, every_text-delivered}
use whl_air.Signaling.Client.{
  message_received, on_message, IWebsocket, Client, ok, new, connect, destroy, loop_ended,
}
use whl_air.Signaling.Client.Threads.{
  Event, connects, disconnects, ends, sends, opens, receives, ended-is_fatal,
}

abbrev counting : IWebsocket
counting = record {
  Ws = ℕ;
  Hdl = ℕ;
  no_hdl = 0;
  get_connection = λ ws uri. ok 1;
  connect = λ ws hdl. suc ws;
  stop = λ ws. suc ws;
  close = λ ws hdl. suc ws;
  is_open = λ ws hdl. some true;
  send = λ ws hdl text. (suc ws, none);
  get_ec = λ ws hdl. none;
  lookup_error = λ ws hdl. none;
}

-- The client connects again, and `run` ends at once, since the library has been stopped.
abbrev history : List (Event counting)
history =
    connects
    ∷ opens 1
    ∷ sends (message join "car" "")
    ∷ receives "hello"
    ∷ disconnects
    ∷ connects
    ∷ ends
    ∷ disconnects
    ∷ connects
    ∷ []

abbrev online : Client counting
online = record (new counting 0 "wss://host" "secret") {
  is_running = true;
  joinable = true;
  on_disconnected_handler = some 4;
}

ended-is_fatal_example :
    (destroy (loop_ended online).0 ≡ none) × (connect (loop_ended online).0 ≡ none)
ended-is_fatal_example = ended-is_fatal online 1 refl refl refl

abbrev listening : Client counting
listening = record online { on_message_received_handler = some 9 }

-- A text that is no message.
every_text-delivered_example :
    (msg : SignalMessage) × (on_message listening "hello" ≡ message_received 9 msg ∷ [])
    × (msg.type ≡ type_meant (quoted_value "hello" "type"))
    × (msg.from ≡ text_meant (quoted_value "hello" "from"))
every_text-delivered_example = every_text-delivered listening "hello" 9 refl
