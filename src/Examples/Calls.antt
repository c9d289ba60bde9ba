-- ===== src/Examples/Calls.antt =====
-- Concrete runs of the WebRTC manager, with a peer connection that logs what is asked of it and a
-- signaling client that counts.
use whl_air.Base.{
  ℕ, suc, String, ◌<>◌, ◌≡◌, ◌≢◌, refl, true, false, none, some, List, [], ◌∷◌, ◌++◌, inl, arith,
  eq_iff,
}
use whl_air.Base.Int.{pos}
use whl_air.StringMap.{find}
use whl_air.Webrtc.Interfaces.{
  IPeerConnection, ISignalingClient, connected, disconnected, failed, closed,
}
use whl_air.Webrtc.Manager.{Manager, PendingRemoteCandidate, new, running}
use whl_air.Webrtc.Manager.Lifecycle.{stop}
use whl_air.Webrtc.Manager.Signals.{add_all, pending_of, handle_signaling_message}
use whl_air.Webrtc.Manager.PeerEvents.{check_for_heartbeat_loss}
use whl_air.Webrtc.Manager.Events.{
  Event, init_begins, init_ends, start_begins, wires, connects, receives, state_changed,
  heartbeat_timer, registers, run,
}
use whl_air.Webrtc.Manager.Handlers.{on_peer_connected, on_peer_error}
use whl_air.Webrtc.Manager.Kept.{handlers_of}
use whl_air.Webrtc.Manager.Registrations.{all_noted, IsInvoked, run-IsInvoked}
use whl_air.Webrtc.Manager.Soundness.{IsSound}
use whl_air.Webrtc.Manager.Reachable.{run-new-IsSound}
use whl_air.Webrtc.Manager.Candidates.{
  offer_message, answer_message, IsDescribed, receive, receive_candidates, offer_adds_buffered,
  candidates_around_answer,
}
use whl_air.Webrtc.Manager.Teardown.{IsEnded, change-IsEnded}
use whl_air.Webrtc.Manager.Stopped
use whl_air.Webrtc.Manager.Stopped.{Request, inits, starts, stops, sends, IsStopped, stop-IsStopped}
use whl_air.Webrtc.Manager.Broadcast.{sent, IsTold, broadcast_reaches_all}
use whl_air.Webrtc.Manager.Peers.{send_data_channel_message_to_all_peers}
use whl_air.Webrtc.Manager.Heartbeats.{check_never_finds}
use whl_air.Webrtc.Manager.Lost.{IsChecked, is_lost, check_removes_lost}
use whl_air.Webrtc.Manager.Frame.{IsSameFor, message_is_local}

abbrev logging : IPeerConnection
logging = record {
  Pc = List String;
  create_offer = λ log. (log ++ "create_offer" ∷ [], true);
  create_answer = λ log. (log ++ "create_answer" ∷ [], true);
  set_remote_description = λ log kind sdp. (log ++ ("set " <> kind) ∷ [], true);
  add_remote_candidate = λ log text mid index. (log ++ ("add " <> text) ∷ [], true);
  send_data = λ log label bytes. (log ++ ("send " <> label) ∷ [], true);
  close = λ log. log ++ "close" ∷ [];
  get_connection_state = λ log. connected;
}

abbrev counting : ISignalingClient
counting = record {
  Client = ℕ;
  connect = λ n. suc n;
  disconnect = λ n. suc n;
  send_signal = λ n msg. suc n;
}

abbrev Net : Type 0
Net = Manager logging counting

abbrev empty : Net
empty = new logging counting

abbrev history : List (Event logging counting)
history =
    init_begins
    ∷ init_ends
    ∷ wires 0
    ∷ start_begins
    ∷ receives (offer_message "car" "v=0") (some [])
    ∷ connects "van" (some [])
    ∷ heartbeat_timer 9000
    ∷ state_changed "car" failed
    ∷ []

run-new-IsSound_example : IsSound (run empty history)
run-new-IsSound_example = run-new-IsSound history

check_never_finds_example : check_for_heartbeat_loss (run empty history) 60000 ≡ run empty history
check_never_finds_example = check_never_finds history 60000

-- A running manager that waits for the description of one peer.
abbrev fresh : List String
fresh = "made" ∷ []

abbrev calling : Net
calling = record empty {
  state = running;
  peer_connections = ("car", some fresh) ∷ [];
  remote_description_set = ("car", false) ∷ [];
}

abbrev host : PendingRemoteCandidate
host = record { candidate = "host"; sdp_mid = "0"; sdp_mline_index = pos 0 }

abbrev relay : PendingRemoteCandidate
relay = record { candidate = "relay"; sdp_mid = "0"; sdp_mline_index = pos 0 }

held : find "car" calling.peer_connections ≡ some (some fresh)
unfolding find
held = refl

unset : find "car" calling.remote_description_set ≡ some false
unfolding find
unset = refl

nothing_pending : pending_of calling "car" ≡ []
unfolding pending_of find
nothing_pending = refl

offer_adds_buffered_example :
    IsDescribed
      (receive
        (receive_candidates calling "car" (host ∷ relay ∷ []))
        (offer_message "car" "v=0")
        none)
      "car"
      (logging.create_answer (
        add_all logging
          (logging.set_remote_description fresh "offer" "v=0").0
          (pending_of calling "car" ++ host ∷ relay ∷ []))).0
offer_adds_buffered_example =
    offer_adds_buffered calling "car" "v=0" fresh none (host ∷ relay ∷ []) held unset refl

candidates_around_answer_example :
    find "car"
      (receive
        (receive_candidates calling "car" (host ∷ []))
        (answer_message "car" "v=0")
        none).peer_connections
    ≡ find "car"
        (receive_candidates
          (receive calling (answer_message "car" "v=0") none)
          "car"
          (host ∷ [])).peer_connections
candidates_around_answer_example =
    candidates_around_answer calling "car" "v=0" fresh none (host ∷ []) held unset nothing_pending
      refl

-- An application that goes on after stop.
abbrev requests : List (Request logging)
requests = inits ∷ starts ∷ Stopped.connects "car" (some fresh) ∷ stops ∷ sends "car" "log" [] ∷ []

stop-IsStopped_example : IsStopped calling requests (stop calling)
stop-IsStopped_example = stop-IsStopped calling requests (inl refl)

change-IsEnded_example :
    IsEnded calling "car" connected disconnected "PC State: Disconnected"
    × IsEnded calling "car" connected failed "PC State: Failed"
    × IsEnded calling "car" connected closed "PC State: Closed"
change-IsEnded_example = change-IsEnded calling "car" connected (some fresh) held

apart : ◌≢◌ {A = String} "van" "car"
apart = ground (arith, eq_iff "van" "car")

message_is_local_example :
    IsSameFor "car" calling
      (handle_signaling_message calling (offer_message "van" "v=0") (some [])).0
message_is_local_example =
    message_is_local calling (offer_message "van" "v=0") (some []) "car" apart

gone : find "van" calling.peer_connections ≡ none
unfolding find
gone = refl

-- Two peers with a heartbeat each, one of them long ago.
abbrev watched : Net
watched = record calling {
  peer_connections = ("car", some fresh) ∷ ("van", some fresh) ∷ [];
  last_heartbeat_rx_time = ("car", 1000) ∷ ("van", 19000) ∷ [];
}

check_removes_lost_example :
    IsChecked
      (is_lost watched "car" 20000 4999)
      "car"
      watched
      (check_for_heartbeat_loss watched 20000)
check_removes_lost_example = check_removes_lost watched "car" 20000 4999 refl (omega arith)

broadcast_reaches_all_example :
    let (next, any) = send_data_channel_message_to_all_peers watched "telemetry" [] in
    (find "van" next.peer_connections
      ≡ sent logging "telemetry" [] (find "van" watched.peer_connections))
    × IsTold logging "telemetry" [] watched.peer_connections any
broadcast_reaches_all_example = broadcast_reaches_all watched "telemetry" [] "van" refl

-- One slot is filled twice, one is emptied.
abbrev registering : List (Event logging counting)
registering =
    registers on_peer_connected (some 1)
    ∷ registers on_peer_error (some 2)
    ∷ init_begins
    ∷ registers on_peer_connected (some 3)
    ∷ registers on_peer_error none
    ∷ []

run-IsInvoked_example :
    IsInvoked (run empty registering) (all_noted (handlers_of empty) registering)
run-IsInvoked_example = run-IsInvoked empty registering
