-- ===== src/Vehicle/Sensors/Faults.antt =====
-- When the capture thread of vehicle_client/sensors/camera.cc ends the process.
use whl_air.Base.{
  refl, ℕ, zero, suc, String, ◌≡◌, ◌≢◌, ap, subst⁻¹, ◌∙◌, Bool, true, Option, none, some, List, [],
  ◌∷◌, arith, if◌then◌else◌,
}
use whl_air.Vehicle.Sensors.{
  Worker, Handler, IsOrderly, started, start-runs, stop-IsOrderly, destroy-goes_on,
}
use whl_air.Vehicle.Sensors
use whl_air.Vehicle.Sensors.Camera.{
  Camera, init, start_capture, stop_capture, destroy, frame_interval,
}

-- A call of a method, or the beginning of the loop in the thread, which computes the interval.
pub data Event : Type 0 where
  inits : String → ℕ → ℕ → ℕ → Event
  starts : Option Handler → Event
  stops begins : Event

abbrev after_start : Option (Camera × Bool) → Option Camera
after_start none = none
after_start (some (next, accepted)) = some next

-- `none`: the process has ended.
unfoldable pub step : Camera → Event → Option Camera
step c (inits path width height fps) = some (init c path width height fps).0
step c (starts handler) = after_start (start_capture c handler)
step c stops = some (stop_capture c)
step c begins =
    if c.worker.joinable
    then (elim (frame_interval c) [ none ↦ none | some interval ↦ some c ])
    else some c

unfoldable pub run : Camera → List Event → Option Camera
unfolding step
run c [] = some c
run c (e ∷ rest) = elim (step c e) [ none ↦ none | some next ↦ run next rest ]

-- Every initialisation gives a positive rate.
abbrev pub HasRates : List Event → Type 0
HasRates [] = Unit
HasRates (inits path width height fps ∷ rest) = (fps ≢ 0) × HasRates rest
HasRates (starts handler ∷ rest) = HasRates rest
HasRates (stops ∷ rest) = HasRates rest
HasRates (begins ∷ rest) = HasRates rest

-- The process goes on with an orderly thread, and the camera can be destroyed.
pub GoesOn : Option Camera → Type 0
GoesOn none = ⊥
GoesOn (some c) = IsOrderly c.worker × (destroy c ≢ none)

destroy-orderly : (c : Camera) → IsOrderly c.worker → destroy c ≢ none
unfolding destroy
destroy-orderly c s = ground (arith, destroy-goes_on c.worker s)

given :
    (c : Camera) (handler : Option Handler) (next : Worker) (accepted : Bool)
    → Sensors.start c.worker handler ≡ some (next, accepted)
    → step c (starts handler) ≡ some (record c { worker = next })
unfolding step start_capture
given c handler next accepted e =
    ap
      (λ (r : Option (Worker × Bool)).
        after_start (elim r [ none ↦ none | some n ↦ some (record c { worker = n.0 }, n.1) ]))
      e

faulty : (c : Camera) → c.fps ≡ 0 → c.worker.joinable ≡ true → step c begins ≡ none
unfolding step frame_interval
faulty c rate joinable = ground (arith, rate, joinable)

begun : (c : Camera) → c.fps ≢ 0 → step c begins ≡ some c
unfolding step frame_interval
begun c rate = ground (arith, rate)

run-GoesOn :
    (c : Camera) (history : List Event)
    → IsOrderly c.worker
    → c.fps ≢ 0
    → HasRates history
    → GoesOn (run c history)
unfolding run GoesOn stop_capture init
run-GoesOn c [] s rate h = (s, destroy-orderly c s)
run-GoesOn c (inits path width height fps ∷ rest) s rate h =
    run-GoesOn (init c path width height fps).0 rest s h.0 h.1
run-GoesOn c (starts handler ∷ rest) s rate h =
    let (next, accepted, e, orderly) = started c.worker handler s in
    subst⁻¹ (λ r. GoesOn (elim r [ none ↦ none | some n ↦ run n rest ]))
      (given c handler next accepted e)
      (run-GoesOn (record c { worker = next }) rest orderly rate h)
run-GoesOn c (stops ∷ rest) s rate h =
    run-GoesOn (stop_capture c) rest (stop-IsOrderly c.worker s) rate h
run-GoesOn c (begins ∷ rest) s rate h =
    subst⁻¹ (λ r. GoesOn (elim r [ none ↦ none | some n ↦ run n rest ])) (begun c rate)
      (run-GoesOn c rest s rate h)

-- What a rate makes of the camera: with the rate 0 the process has ended.
pub IsAsRated : ℕ → Option Camera → Type 0
IsAsRated zero after = after ≡ none
IsAsRated (suc n) after = GoesOn after

-- An orderly camera is given a rate, started and lets its loop begin. If the rate is 0, the process ends
-- there. Otherwise it goes on through every later history of starts, stops, beginning loops and
-- initialisations with positive rates: the thread object is joinable exactly while the camera captures,
-- it captures only with a handler, and its destructor does not end the process.
pub camera_goes_on :
    (c : Camera) (path : String) (width height fps handler : ℕ) (history : List Event)
    → IsOrderly c.worker
    → HasRates history
    → IsAsRated fps (run c (inits path width height fps ∷ starts (some handler) ∷ begins ∷ history))
unfolding run IsAsRated init
camera_goes_on c path width height (suc fps) handler history s h =
    run-GoesOn (init c path width height (suc fps)).0 (starts (some handler) ∷ begins ∷ history) s
      (omega arith) h
camera_goes_on c path width height zero handler history s h =
    let ready = (init c path width height zero).0 in
    let (next, accepted, e, orderly) = started c.worker (some handler) s in
    ap (λ r. elim r [ none ↦ none | some n ↦ run n (begins ∷ history) ])
      (given ready (some handler) next accepted e)
    ∙ ap (λ r. elim r [ none ↦ none | some n ↦ run n history ])
        (faulty (record ready { worker = next }) refl
          (orderly.joined ∙ start-runs c.worker next handler accepted e))
