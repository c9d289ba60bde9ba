-- ===== src/Cockpit/App/History.antt =====
-- What holds after any interleaving of the cockpit client's threads.
use whl_air.Base.{
  sym, ap, ◌∙◌, ◌≡◌, refl, Bool, true, false, List, [], ◌∷◌, eq_iff, arith, if◌then◌else◌,
}
use whl_air.Base.Int.{ℤ, int_eq}
use whl_air.Cockpit.Clients.{
  member, member-insert, member-erase, IsSetOfIds, insert-IsSetOfIds, erase-IsSetOfIds,
}
use whl_air.Cockpit.Runtime.{
  RuntimeState, push_state, on_ws_connected, on_ws_disconnected, on_peer_connected,
  on_peer_disconnected, on_network_up, on_network_down, on_heartbeat_lost,
}
use whl_air.Cockpit.Runtime.Counters.{ws_clients-apply_command}
use whl_air.Cockpit.Runtime.Safety
use whl_air.Cockpit.Runtime.Safety.{IsConsistent}
use whl_air.Cockpit.App.{
  Section, ws_connected, ws_disconnected, peer_connected, peer_disconnected, network_down,
  network_up, heartbeat_lost, command, telemetry_tick, heartbeat_tick, publish_status_update,
  telemetry_round, heartbeat_round, step, run, started, begin_connecting, IsBackground, All,
}

step-IsConsistent : (rt : RuntimeState) (s : Section) → IsConsistent rt → IsConsistent (step rt s)
unfolding step publish_status_update telemetry_round heartbeat_round
step-IsConsistent rt (ws_connected id) h = Safety.on_ws_connected-IsConsistent rt h id
step-IsConsistent rt (ws_disconnected id) h = Safety.on_ws_disconnected-IsConsistent rt h id
step-IsConsistent rt peer_connected h = Safety.on_peer_connected-IsConsistent rt h
step-IsConsistent rt peer_disconnected h = Safety.on_peer_disconnected-IsConsistent rt h
step-IsConsistent rt network_down h = Safety.on_network_down-IsConsistent rt h
step-IsConsistent rt network_up h = Safety.on_network_up-IsConsistent rt h
step-IsConsistent rt heartbeat_lost h = Safety.on_heartbeat_lost-IsConsistent rt h
step-IsConsistent rt (command source name) h = Safety.apply_command-IsConsistent rt h source name
step-IsConsistent rt _ h = ground arith

run-IsConsistent :
    (rt : RuntimeState) (history : List Section) → IsConsistent rt → IsConsistent (run rt history)
unfolding run
run-IsConsistent rt [] h = h
run-IsConsistent rt (s ∷ rest) h = run-IsConsistent (step rt s) rest (step-IsConsistent rt s h)

-- The state before `connection_loop` has begun.
abbrev IsFresh : RuntimeState → Type 0
IsFresh rt =
    (rt.connected ≡ false)
    × (rt.emergency ≡ false)
    × (rt.expected_speed_mps ≡ 0)
    × (rt.commands_sent ≡ rt.command_acks)

run-IsFresh :
    (rt : RuntimeState) (early : List Section)
    → IsFresh rt
    → All IsBackground early
    → IsFresh (run rt early)
unfolding run step telemetry_round heartbeat_round
run-IsFresh rt [] h b = h
run-IsFresh rt (heartbeat_tick ∷ rest) h b = run-IsFresh (heartbeat_round rt) rest h b.1
run-IsFresh rt (telemetry_tick ∷ rest) h b =
    run-IsFresh (telemetry_round rt) rest (ground arith) b.1
run-IsFresh rt (_ ∷ rest) h b = absurd b.0

begin_connecting-IsConsistent :
    (rt : RuntimeState) → IsFresh rt → IsConsistent (begin_connecting rt)
unfolding begin_connecting push_state
begin_connecting-IsConsistent rt h = ground (
  arith,
  eq_iff "CONNECTING" "CONNECTED",
  eq_iff "CONNECTING" "REMOTE_CONTROL",
  eq_iff "CONNECTING" "SAFE_STOP",
)

-- After every interleaving in which only rounds of the background loops come before the first section
-- of `connection_loop`, the cockpit's state is consistent: REMOTE_CONTROL and CONNECTED need a
-- connection and no emergency, SAFE_STOP an emergency, each with the vehicle mode to match, a
-- connection without an emergency means one of the first two, the expected speed is 0, or 6 in
-- REMOTE_CONTROL, and every command sent was acknowledged.
pub run-started-IsConsistent :
    (early history : List Section)
    → All IsBackground early
    → IsConsistent (run (begin_connecting (run started early)) history)
unfolding started push_state
run-started-IsConsistent early history b =
    run-IsConsistent _ history (begin_connecting-IsConsistent _ (run-IsFresh started early fresh b))
  where
    fresh : IsFresh started
    fresh = (refl, refl, refl, refl)

-- Whether an id is attached after a history, by the latest event that names it.
abbrev pub attached : ℤ → Bool → List Section → Bool
attached id was [] = was
attached id was (ws_connected j ∷ rest) = attached id (if int_eq j id then true else was) rest
attached id was (ws_disconnected j ∷ rest) = attached id (if int_eq j id then false else was) rest
attached id was (_ ∷ rest) = attached id was rest

-- What one section does to the clients.
abbrev Attaches : List ℤ → Section → List ℤ → Type 0
Attaches before s after =
    (IsSetOfIds before → IsSetOfIds after)
    × ((id : ℤ) → member id after ≡ attached id (member id before) (s ∷ []))

untouched :
    (s : Section) (before after : List ℤ)
    → ((id : ℤ) (was : Bool) → attached id was (s ∷ []) ≡ was)
    → after ≡ before
    → Attaches before s after
untouched s before after idle e = rw e ((λ h. h), λ id. sym (idle id (member id before)))

step-Attaches : (rt : RuntimeState) (s : Section) → Attaches rt.ws_clients s (step rt s).ws_clients
unfolding step on_ws_connected on_ws_disconnected on_peer_connected on_peer_disconnected
    on_network_up on_network_down on_heartbeat_lost push_state publish_status_update heartbeat_round
    telemetry_round
step-Attaches rt (ws_connected j) =
    (insert-IsSetOfIds j rt.ws_clients, λ id. member-insert j id rt.ws_clients)
step-Attaches rt (ws_disconnected j) =
    (erase-IsSetOfIds j rt.ws_clients, λ id. member-erase j id rt.ws_clients)
step-Attaches rt (command source name) =
    untouched (command source name) rt.ws_clients _ (λ id was. refl)
      (ws_clients-apply_command rt source name)
step-Attaches rt s = untouched s rt.ws_clients _ (λ id was. refl) (ground arith)

attached-cons :
    (id : ℤ) (was : Bool) (s : Section) (rest : List Section)
    → attached id was (s ∷ rest) ≡ attached id (attached id was (s ∷ [])) rest
attached-cons id was (ws_connected j) rest = refl
attached-cons id was _ rest = refl

-- Along any interleaving the web socket clients stay a set, and an id is among them exactly if the
-- latest event that names it is a connection, or none names it and it was among them before.
pub run-attached :
    (rt : RuntimeState) (history : List Section) (id : ℤ)
    → IsSetOfIds rt.ws_clients
    → IsSetOfIds (run rt history).ws_clients
      × (member id (run rt history).ws_clients ≡ attached id (member id rt.ws_clients) history)
unfolding run
run-attached rt [] id h = (h, refl)
run-attached rt (s ∷ rest) id h =
    let here = step-Attaches rt s in
    let later = run-attached (step rt s) rest id (here.0 h) in
    (
      later.0,
      later.1
          ∙ ap (λ was. attached id was rest) (here.1 id)
          ∙ sym (attached-cons id (member id rt.ws_clients) s rest),
    )
