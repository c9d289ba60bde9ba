-- ===== src/Signaling/Client.antt =====
-- signaling/signaling_client.{h,cc}: SignalingClientImpl over its WebSocket library.
pub mod Threads
pub mod Payloads
use text.Mathlib.Text.{find?}
use whl_air.Base.{
  ℕ, String, ◌<>◌, ◌==◌, Bool, true, false, not, Option, none, some, List, [], ◌∷◌, if◌then◌else◌,
}
use whl_air.Signaling.Message.{SignalMessage}
use whl_air.Signaling.Deserialize.{deserialize_signal_message}
use whl_air.Signaling.Serialize.{serialize_signal_message}

-- The outcome of a call of the library that takes an `error_code`.
pub data Outcome {ℓ} (A : Type ℓ) : Type ℓ where
  failed : String → Outcome A
  ok : A → Outcome A

-- websocketpp's client (not under this repository). A call returns the library's new state; events
-- come later, by the handlers.
pub record IWebsocket : Type 1 where
  pub Ws : Type 0
  pub Hdl : Type 0
  -- The empty connection_hdl.
  pub no_hdl : Hdl
  -- A new connection for a URI, `connect` of it, `run`'s stop, and a close frame.
  pub get_connection : Ws → String → Outcome Hdl
  pub connect : Ws → Hdl → Ws
  pub stop : Ws → Ws
  pub close : Ws → Hdl → Ws
  -- The connection of a handle, if it can be had: whether it is open.
  pub is_open : Ws → Hdl → Option Bool
  -- The error that is left, if sending fails.
  pub send : Ws → Hdl → String → Ws × Option String
  -- What the connection of a handle says of its failure, or the error of looking it up, if any.
  pub get_ec : Ws → Hdl → Option String
  pub lookup_error : Ws → Hdl → Option String

abbrev pub Handler : Type 0
Handler = ℕ

-- `asioThread_`: whether it is joinable.
pub record Client (net : IWebsocket) : Type 0 where
  pub ws_client : net.Ws
  pub connection_hdl : net.Hdl
  pub uri : String
  pub jwt : String
  pub is_running : Bool
  pub joinable : Bool
  pub on_connected_handler : Option Handler
  pub on_disconnected_handler : Option Handler
  pub on_error_handler : Option Handler
  pub on_message_received_handler : Option Handler

-- Which handler: the setters are named after these.
pub data Slot : Type 0 where
  on_connected on_disconnected on_error on_message_received : Slot

-- An invocation of a handler.
pub data Report : Type 0 where
  connected disconnected : Handler → Report
  error : Handler → String → Report
  message_received : Handler → SignalMessage → Report

-- The constructor.
abbrev pub new : (net : IWebsocket) → net.Ws → String → String → Client net
new net ws uri jwt = record {
  ws_client = ws;
  connection_hdl = net.no_hdl;
  uri = uri;
  jwt = jwt;
  is_running = false;
  joinable = false;
  on_connected_handler = none;
  on_disconnected_handler = none;
  on_error_handler = none;
  on_message_received_handler = none;
}

-- The URI that connect asks for.
unfoldable connection_uri : String → String → String
connection_uri uri jwt =
    if jwt == ""
    then uri
    else elim (find? uri "?") [ none ↦ uri <> "?token=" <> jwt | some at ↦ uri <> "&token=" <> jwt ]

unfoldable report_error : Option Handler → String → List Report
report_error none text = []
report_error (some handler) text = error handler text ∷ []

unfoldable report_disconnected : Option Handler → List Report
report_disconnected none = []
report_disconnected (some handler) = disconnected handler ∷ []

module _ {net : IWebsocket} where
  -- The setters; an empty std::function is none.
  pub register : Slot → Client net → Option Handler → Client net
  register on_connected c handler = record c { on_connected_handler = handler }
  register on_disconnected c handler = record c { on_disconnected_handler = handler }
  register on_error c handler = record c { on_error_handler = handler }
  register on_message_received c handler = record c { on_message_received_handler = handler }

  -- `none`: the assignment to a joinable thread ends the process (std::terminate). The new thread runs
  -- the library, which is not restarted if it has been stopped: its `run` then returns at once, which is
  -- a `loop_ended` that follows.
  pub connect : Client net → Option (Client net × List Report)
  unfolding connection_uri report_error
  connect c =
      if c.is_running
      then some (c, [])
      else elim (net.get_connection c.ws_client (connection_uri c.uri c.jwt)) [
        | failed text ↦
            some (c, report_error c.on_error_handler ("Could not create connection: " <> text))
        | ok hdl ↦
            if c.joinable
            then none
            else some (
              record c {
                connection_hdl = hdl;
                ws_client = net.connect c.ws_client hdl;
                is_running = true;
                joinable = true;
              },
              [],
            )
      ]

  -- With the join, for which the thread has run to its end: `is_running` is false by then, so it
  -- reports nothing.
  pub disconnect : Client net → Client net
  disconnect c =
      if c.is_running
      then record c {
        is_running = false;
        joinable = false;
        ws_client = elim (net.is_open c.ws_client c.connection_hdl) [
          | none ↦ net.stop c.ws_client
          | some true ↦ net.stop (net.close c.ws_client c.connection_hdl)
          | some false ↦ net.stop c.ws_client
        ];
      }
      else c

  -- The destructor: disconnect, and then the members'. `none`: the destruction of a joinable thread
  -- ends the process.
  pub destroy : Client net → Option net.Ws
  unfolding disconnect
  destroy c = let left = disconnect c in if left.joinable then none else some left.ws_client

  unfoldable pub send_signal : Client net → SignalMessage → Client net × List Report
  unfolding report_error serialize_signal_message
  send_signal c msg =
      let refused =
        report_error c.on_error_handler
          "Cannot send signal, connection not open or handle invalid." in
      let (ws, left) = net.send c.ws_client c.connection_hdl (serialize_signal_message msg) in
      elim (net.is_open c.ws_client c.connection_hdl) [
        | none ↦ (c, refused)
        | some false ↦ (c, refused)
        | some true ↦ (
          record c { ws_client = ws },
          elim left [
            | none ↦ []
            | some text ↦ report_error c.on_error_handler ("Failed to send message: " <> text)
          ],
        )
      ]

  -- The handlers of the library's events, in its thread.
  unfoldable on_open : Client net → net.Hdl → Client net × List Report
  on_open c hdl = (
    record c { connection_hdl = hdl },
    elim c.on_connected_handler [ none ↦ [] | some handler ↦ connected handler ∷ [] ],
  )

  unfoldable pub on_message : Client net → String → List Report
  unfolding report_error deserialize_signal_message
  on_message c payload = elim (deserialize_signal_message payload) [
    | some msg ↦ elim c.on_message_received_handler [
      | none ↦ []
      | some handler ↦ message_received handler msg ∷ []
    ]
    | none ↦ report_error c.on_error_handler "Failed to parse received message."
  ]

  pub on_close : Client net → List Report
  unfolding report_disconnected
  on_close c = report_disconnected c.on_disconnected_handler

  unfoldable on_fail : Client net → net.Hdl → List Report
  unfolding report_error
  on_fail c hdl = report_error c.on_error_handler (
      "Connection handshake failed" <> elim (net.get_ec c.ws_client hdl) [
        | some text ↦ ": " <> text
        | none ↦ elim (net.lookup_error c.ws_client hdl) [
          | none ↦ ""
          | some text ↦ ": (handle error) " <> text
        ]
      ])

  -- The rest of the thread, when `run` has returned by itself.
  pub loop_ended : Client net → Client net × List Report
  unfolding report_disconnected
  loop_ended c = (
    record c { is_running = false },
    if c.is_running then report_disconnected c.on_disconnected_handler else [],
  )
