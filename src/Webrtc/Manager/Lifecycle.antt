-- ===== src/Webrtc/Manager/Lifecycle.antt =====
-- webrtc/webrtc_manager.cc, init, start and stop. Each begins with a compare-and-exchange on the
-- atomic `state_` outside of the lock (the functions named `_begin`) and goes on under the lock
-- (`_locked`); other threads may run in between.
use whl_air.Base.{Bool, true, false, Option, none, some, List, [], ◌∷◌, if◌then◌else◌}
use whl_air.StringMap.{Map}
use whl_air.Webrtc.Interfaces.{IPeerConnection, ISignalingClient}
use whl_air.Webrtc.Manager.{
  Manager, AppState, uninitialized, initializing, initialized, running, stopping, stopped,
}

abbrev pub is_uninitialized : AppState → Bool
is_uninitialized uninitialized = true
is_uninitialized _ = false

abbrev pub is_initialized : AppState → Bool
is_initialized initialized = true
is_initialized _ = false

abbrev pub is_running : AppState → Bool
is_running running = true
is_running _ = false

module _ (net : IPeerConnection) where
  -- The objects that the map holds, each after its `Close`.
  unfoldable pub close_all : Map (Option net.Pc) → List net.Pc
  close_all [] = []
  close_all ((peer, none) ∷ rest) = close_all rest
  close_all ((peer, some pc) ∷ rest) = net.close pc ∷ close_all rest

module _ {net : IPeerConnection} {sig : ISignalingClient} where
  unfoldable pub init_begin : Manager net sig → Manager net sig × Bool
  init_begin m =
      if is_uninitialized m.state then (record m { state = initializing }, true) else (m, false)

  unfoldable pub init_locked : Manager net sig → Manager net sig × Bool
  init_locked m = (record m { signaling_client = none; state = initialized }, true)

  unfoldable pub init : Manager net sig → Manager net sig × Bool
  unfolding init_begin init_locked
  init m = let (begun, won) = init_begin m in if won then init_locked begun else (begun, false)

  unfoldable pub start_begin : Manager net sig → Manager net sig × Bool
  start_begin m =
      if is_initialized m.state then (record m { state = running }, true) else (m, false)

  unfoldable pub start_locked : Manager net sig → Manager net sig × Bool
  start_locked m = elim m.signaling_client [
    | none ↦ (record m { state = stopped }, false)
    | some client ↦ (record m { signaling_client = some (sig.connect client) }, true)
  ]

  unfoldable pub start : Manager net sig → Manager net sig × Bool
  unfolding start_begin start_locked
  start m = let (begun, won) = start_begin m in if won then start_locked begun else (begun, false)

  unfoldable pub stop_begin : Manager net sig → Manager net sig × Bool
  stop_begin m =
      if is_running m.state
      then (record m { state = stopping }, true)
      else if is_initialized m.state
      then (record m { state = stopping }, true)
      else (m, false)

  -- With the objects that are destroyed, in the states in which they are.
  unfoldable pub stop_locked : Manager net sig → Manager net sig × List net.Pc
  unfolding close_all
  stop_locked m = (
    record m {
      peer_connections = [];
      signaling_client = elim m.signaling_client [
        | none ↦ none
        | some client ↦ some (sig.disconnect client)
      ];
      state = stopped;
    },
    close_all net m.peer_connections,
  )

  unfoldable pub stop : Manager net sig → Manager net sig × List net.Pc
  unfolding stop_begin stop_locked
  stop m = let (begun, won) = stop_begin m in if won then stop_locked begun else (begun, [])

  -- The destructor, with the objects that its stop destroys.
  unfoldable pub destroy : Manager net sig → List net.Pc
  unfolding stop
  destroy m = (stop m).1
