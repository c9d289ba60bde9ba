-- ===== src/Signaling/Client/Threads.antt =====
-- The thread of signaling/signaling_client.cc over histories of calls and events: when it is joined, and
-- when the process ends because it is not.
use whl_air.Base.{
  String, ◌≡◌, ◌≢◌, Bool, true, false, if◌then◌else◌, Option, none, some, List, [], ◌∷◌, arith,
}
use whl_air.Signaling.Message.{SignalMessage}
use whl_air.Signaling.Client.{
  IWebsocket, Client, Handler, Slot, Report, register, ok, disconnected, connect, disconnect,
  destroy, send_signal, on_open, on_close, loop_ended, connection_uri, report_disconnected,
}

-- What the application and the library do to a client. `ends` is the return of `run` by itself: for
-- lack of work, as after a connection that was closed or has failed, and at once in a thread that is
-- started when the library has been stopped before, since connect does not restart it.
pub data Event (net : IWebsocket) : Type 0 where
  connects disconnects closes ends : Event net
  sends : SignalMessage → Event net
  opens fails : net.Hdl → Event net
  receives : String → Event net
  registers : Slot → Option Handler → Event net
  -- The library changes by itself.
  drifts : net.Ws → Event net

module _ {net : IWebsocket} where
  after_connect : Client net → Option (Client net × List Report) → Option (Client net)
  after_connect c none = none
  after_connect c (some (next, reports)) = some next

  -- `none`: the process has ended.
  unfoldable pub step : Client net → Event net → Option (Client net)
  unfolding after_connect
  step c connects = after_connect c (connect c)
  step c disconnects = some (disconnect c)
  step c closes = some c
  step c ends = some (loop_ended c).0
  step c (sends msg) = some (send_signal c msg).0
  step c (fails hdl) = some c
  step c (receives payload) = some c
  step c (opens hdl) = some (on_open c hdl).0
  step c (registers slot handler) = some (register slot c handler)
  step c (drifts ws) = some (record c { ws_client = ws })

  unfoldable pub run : Client net → List (Event net) → Option (Client net)
  unfolding step
  run c [] = some c
  run c (e ∷ rest) = elim (step c e) [ none ↦ none | some next ↦ run next rest ]

  -- Whether `run` has ended by itself while the client ran.
  pub has_ended : Client net → List (Event net) → Bool
  has_ended c [] = false
  has_ended c (ends ∷ rest) = if c.is_running then true else has_ended (loop_ended c).0 rest
  has_ended c (e ∷ rest) = elim (step c e) [ none ↦ false | some next ↦ has_ended next rest ]

  -- The process goes on, the thread is joinable exactly while the client runs, and the client can be
  -- destroyed.
  pub IsAlive : Option (Client net) → Type 0
  IsAlive none = ⊥
  IsAlive (some c) = (c.joinable ≡ c.is_running) × (destroy c ≢ none)

  -- The process has ended, or the destruction of the client ends it.
  pub IsDoomed : Option (Client net) → Type 0
  IsDoomed none = Unit
  IsDoomed (some c) = destroy c ≡ none

  pub IsJudged : Bool → Option (Client net) → Type 0
  IsJudged false after = IsAlive after
  IsJudged true after = IsDoomed after

  -- A thread that has run to its end and was not joined.
  abbrev IsLeft : Client net → Type 0
  IsLeft c = (c.joinable ≡ true) × (c.is_running ≡ false)

  StaysLeft : Option (Client net) → Type 0
  StaysLeft none = Unit
  StaysLeft (some c) = IsLeft c

  -- Where `run` ends by itself while the client runs, the thread is left joinable: the destruction of
  -- the client ends the process, and so does every connect for which the library has a connection.
  pub ended-is_fatal :
      (c : Client net) (hdl : net.Hdl)
      → c.is_running ≡ true
      → c.joinable ≡ true
      → net.get_connection c.ws_client (connection_uri c.uri c.jwt) ≡ ok hdl
      → (destroy (loop_ended c).0 ≡ none) × (connect (loop_ended c).0 ≡ none)
  unfolding destroy disconnect connect loop_ended
  ended-is_fatal c hdl runs joins e = (ground arith, ground arith)

  -- A connection that the server closes while the client runs is reported to the application twice,
  -- when it closes and when `run` ends for lack of work; after disconnect the end of `run` reports
  -- nothing.
  closed-reports :
      (c : Client net) (handler : Handler)
      → c.is_running ≡ true
      → c.on_disconnected_handler ≡ some handler
      → (on_close c ≡ disconnected handler ∷ [])
        × ((loop_ended c).1 ≡ disconnected handler ∷ [])
        × ((loop_ended (disconnect c)).1 ≡ [])
  unfolding on_close loop_ended disconnect report_disconnected
  closed-reports c handler runs e = (ground arith, ground arith, ground arith)
