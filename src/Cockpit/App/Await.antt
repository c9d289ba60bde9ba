-- ===== src/Cockpit/App/Await.antt =====
-- The loop with which run_self_test of cockpit_client/cockpit_client_app.cc waits for a session, beside
-- connection_loop and the loops of the heartbeat and the telemetry.
use whl_air.Base.{
  ℕ, zero, suc, ◌+◌, ◌≤◌, ◌≡◌, refl, ap, sym, ◌∙◌, true, false, Option, none, some, List, [], ◌∷◌,
  arith, if◌then◌else◌, Bool-cases, inl, inr,
}
use whl_air.Timeline
use whl_air.SelfTest.{Moment}
use whl_air.Cockpit.Runtime.{RuntimeState, on_peer_connected, push_state}
use whl_air.Cockpit.App.{begin_connecting, publish_status_update, started, step, peer_connected}
use whl_air.Cockpit.App.SelfTest.{Tick, tick}
use whl_air.Cockpit.App.Quiet.{core, core-tick, core-step, ready}

-- How far connection_loop has come: its first section, OnPeerConnected and `publish_status_update`.
pub data Phase : Type 0 where
  waiting connecting connected published : Phase

-- A round of another loop, or the next section of connection_loop.
pub data Other : Type 0 where
  round : Tick → Other
  proceeds : Other

-- The shared state, with the place of connection_loop.
pub record Session : Type 0 where
  pub phase : Phase
  pub runtime : RuntimeState

abbrev pub opened : Session
opened = record { phase = waiting; runtime = started }

unfoldable pub proceed : Phase → RuntimeState → Session
proceed waiting rt = record { phase = connecting; runtime = begin_connecting rt }
proceed connecting rt = record { phase = connected; runtime = on_peer_connected rt }
proceed connected rt = record { phase = published; runtime = publish_status_update rt }
proceed published rt = record { phase = published; runtime = rt }

unfoldable pub others : Session → List Other → Session
unfolding proceed
others s [] = s
others s (round t ∷ rest) = others (record s { runtime = tick s.runtime t }) rest
others s (proceeds ∷ rest) = others (proceed s.phase s.runtime) rest

-- The loop with fuel: `none` while it has not ended. A moment is what happens before the flag is read.
unfoldable pub await : ℕ → (ℕ → Moment Other) → ℕ → Session → Option Session
unfolding others
await zero polls n s = none
await (suc fuel) polls n s =
    let now = others s (polls n).meanwhile in
    let later = await fuel polls (suc n) now in
    if (polls n).stop_requested then some now else if now.runtime.connected then some now else later

-- What holds of the runtime state in each phase.
IsAt : Phase → RuntimeState → Type 0
IsAt waiting rt = core rt ≡ core started
IsAt connecting rt = core rt ≡ core (begin_connecting started)
IsAt connected rt = core rt ≡ ready
IsAt published rt = core rt ≡ ready

IsAt-core : (p : Phase) (rt next : RuntimeState) → core next ≡ core rt → IsAt p rt → IsAt p next
unfolding IsAt
IsAt-core waiting rt next e h = e ∙ h
IsAt-core connecting rt next e h = e ∙ h
IsAt-core connected rt next e h = e ∙ h
IsAt-core published rt next e h = e ∙ h

first_connected : core (on_peer_connected (begin_connecting started)) ≡ ready
unfolding on_peer_connected begin_connecting push_state started Timeline.push
first_connected = refl

proceed-IsAt :
    (p : Phase) (rt : RuntimeState) → IsAt p rt → IsAt (proceed p rt).phase (proceed p rt).runtime
unfolding IsAt proceed step begin_connecting push_state publish_status_update
proceed-IsAt waiting rt h = ap (λ r. core (begin_connecting r)) h
proceed-IsAt connecting rt h =
    core-step rt peer_connected
    ∙ ap (λ r. core (on_peer_connected r)) h
    ∙ sym (core-step (begin_connecting started) peer_connected)
    ∙ first_connected
proceed-IsAt connected rt h = h
proceed-IsAt published rt h = h

others-IsAt :
    (s : Session) (l : List Other)
    → IsAt s.phase s.runtime
    → IsAt (others s l).phase (others s l).runtime
unfolding others
others-IsAt s [] h = h
others-IsAt s (round t ∷ rest) h =
    others-IsAt (record s { runtime = tick s.runtime t }) rest
      (IsAt-core s.phase s.runtime (tick s.runtime t) (core-tick s.runtime t) h)
others-IsAt s (proceeds ∷ rest) h =
    others-IsAt (proceed s.phase s.runtime) rest (proceed-IsAt s.phase s.runtime h)

rank : Phase → ℕ
rank waiting = 0
rank connecting = 1
rank connected = 2
rank published = 3

IsAt-connected : (p : Phase) (rt : RuntimeState) → 2 ≤ rank p → IsAt p rt → rt.connected ≡ true
unfolding IsAt rank
IsAt-connected waiting rt r h = ground (arith, r)
IsAt-connected connecting rt r h = ground (arith, r)
IsAt-connected connected rt r h = ap (λ (c : RuntimeState). c.connected) h
IsAt-connected published rt r h = ap (λ (c : RuntimeState). c.connected) h

IsAt-ready : (p : Phase) (rt : RuntimeState) → rt.connected ≡ true → IsAt p rt → core rt ≡ ready
unfolding IsAt begin_connecting push_state started
IsAt-ready waiting rt c h =
    let off : rt.connected ≡ false = ap (λ (r : RuntimeState). r.connected) h in
    ground (arith, c, off)
IsAt-ready connecting rt c h =
    let off : rt.connected ≡ false = ap (λ (r : RuntimeState). r.connected) h in
    ground (arith, c, off)
IsAt-ready connected rt c h = h
IsAt-ready published rt c h = h

-- How often connection_loop proceeds.
unfoldable pub steps_of : List Other → ℕ
steps_of [] = 0
steps_of (round t ∷ rest) = steps_of rest
steps_of (proceeds ∷ rest) = suc (steps_of rest)

proceed-rank :
    (p : Phase) (rt : RuntimeState) (j : ℕ) → 2 ≤ rank p + suc j → 2 ≤ rank (proceed p rt).phase + j
unfolding proceed rank
proceed-rank waiting rt j r = omega (arith, r)
proceed-rank connecting rt j r = omega (arith, r)
proceed-rank connected rt j r = omega (arith, r)
proceed-rank published rt j r = omega (arith, r)

others-rank :
    (s : Session) (l : List Other) (j : ℕ)
    → 2 ≤ rank s.phase + (steps_of l + j)
    → 2 ≤ rank (others s l).phase + j
unfolding others steps_of
others-rank s [] j r = omega (arith, r)
others-rank s (round t ∷ rest) j r = others-rank (record s { runtime = tick s.runtime t }) rest j r
others-rank s (proceeds ∷ rest) j r =
    others-rank (proceed s.phase s.runtime) rest j
      (proceed-rank s.phase s.runtime (steps_of rest + j) (omega (arith, r)))

module _ (polls : ℕ → Moment Other) where
  -- How often connection_loop proceeds from the n-th moment on, k moments later included.
  unfoldable pub steps_from : ℕ → ℕ → ℕ
  steps_from zero n = steps_of (polls n).meanwhile
  steps_from (suc k) n = steps_of (polls n).meanwhile + steps_from k (suc n)

  await-ends :
      (k n : ℕ) (s : Session)
      → ((m : ℕ) → (polls m).stop_requested ≡ false)
      → IsAt s.phase s.runtime
      → 2 ≤ rank s.phase + steps_from k n
      → (w : Session) × (await (suc k) polls n s ≡ some w) × (core w.runtime ≡ ready)
  unfolding await steps_from
  await-ends zero n s unstopped h r =
      let now = others s (polls n).meanwhile in
      let there = others-IsAt s (polls n).meanwhile h in
      let far = others-rank s (polls n).meanwhile 0 (omega (arith, r)) in
      let on = IsAt-connected now.phase now.runtime (omega (arith, far)) there in
      (now, ground (arith, unstopped n, on), IsAt-ready now.phase now.runtime on there)
  await-ends (suc k) n s unstopped h r =
      let now = others s (polls n).meanwhile in
      let there = others-IsAt s (polls n).meanwhile h in
      elim (Bool-cases now.runtime.connected) [
        | inl on ↦ (now, ground (arith, unstopped n, on), IsAt-ready now.phase now.runtime on there)
        | inr off ↦
            let (w, e, c) =
              await-ends k (suc n) now unstopped there
                (others-rank s (polls n).meanwhile (steps_from k (suc n)) (omega (arith, r))) in
            (w, ground (arith, unstopped n, off, e), c)
      ]

  -- Unless a stop is requested, the wait of the cockpit's self test for a session ends at the latest
  -- with the moment by which connection_loop has gone on twice, whatever rounds of the other loops fall
  -- in between, and when it ends the session is connected: the state is `ready` but for the counters of
  -- the other threads.
  pub wait_ends :
      (k : ℕ)
      → ((m : ℕ) → (polls m).stop_requested ≡ false)
      → 2 ≤ steps_from k 0
      → (w : Session) × (await (suc k) polls 0 opened ≡ some w) × (core w.runtime ≡ ready)
  unfolding IsAt rank
  wait_ends k unstopped r = await-ends k 0 opened unstopped refl (omega (arith, r))
