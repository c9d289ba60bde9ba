-- ===== src/Vehicle/Sensors.antt =====
-- vehicle_client/sensors/: sources that call a handler from a thread of their own. The two of them start
-- and stop that thread in the same way.
pub mod Camera
pub mod Faults
pub mod Chassis
use whl_air.Base.{ℕ, ◌≡◌, ◌≢◌, refl, arith, Bool, true, false, Option, none, some, if◌then◌else◌}

-- A handler, by an id of the callable; an empty `std::function` is none.
abbrev pub Handler : Type 0
Handler = ℕ

-- The flag of the loop, whether the thread object is joinable, and the handler.
pub record Worker : Type 0 where
  pub is_running : Bool
  pub joinable : Bool
  pub handler : Option Handler

-- The initialisers of the members.
abbrev pub idle : Worker
idle = record { is_running = false; joinable = false; handler = none }

-- startCapture and startUpdates. The result is none where the assignment of a thread object to a
-- joinable one ends the process.
unfoldable pub start : Worker → Option Handler → Option (Worker × Bool)
start w none = some (w, false)
start w (some handler) =
    if w.is_running
    then some (w, true)
    else if w.joinable
    then none
    else some (record { is_running = true; joinable = true; handler = some handler }, true)

-- stopCapture and stopUpdates, the join included.
unfoldable pub stop : Worker → Worker
stop w = if w.is_running then record w { is_running = false; joinable = false } else w

-- The destructors: whether the process goes on, since the thread object must not be joinable.
unfoldable pub destroy : Worker → Option Worker
unfolding stop
destroy w = let stopped = stop w in if stopped.joinable then none else some stopped

-- The thread object is joinable exactly while the loop runs, and the loop has a handler.
pub record IsOrderly (w : Worker) : Type 0 where
  pub joined : w.joinable ≡ w.is_running
  pub handled : w.is_running ≡ true → w.handler ≢ none

pub idle-IsOrderly : IsOrderly idle
idle-IsOrderly = record { joined = refl; handled = λ h. cc }

start-IsOrderly :
    (w next : Worker) (handler : Option Handler) (accepted : Bool)
    → IsOrderly w
    → start w handler ≡ some (next, accepted)
    → IsOrderly next
unfolding start
start-IsOrderly w next none accepted s e = ground arith
start-IsOrderly w next (some handler) accepted s e = record {
  joined = ground (arith, s.joined);
  handled = λ h. ground (arith, s.joined, s.handled);
}

start-goes_on : (w : Worker) (handler : Option Handler) → IsOrderly w → start w handler ≢ none
unfolding start
start-goes_on w none s = ground arith
start-goes_on w (some handler) s = ground (arith, s.joined)

value_of :
    (r : Option (Worker × Bool))
    → r ≢ none
    → (next : Worker) × (accepted : Bool) × (r ≡ some (next, accepted))
value_of none h = elim (h refl) [ ]
value_of (some (next, accepted)) h = (next, accepted, refl)

pub start-runs :
    (w next : Worker) (handler : Handler) (accepted : Bool)
    → start w (some handler) ≡ some (next, accepted)
    → next.is_running ≡ true
unfolding start
start-runs w next handler accepted e = ground arith

-- A start of an orderly worker is no end of the process and leaves it orderly.
pub started :
    (w : Worker) (handler : Option Handler)
    → IsOrderly w
    → (next : Worker) × (accepted : Bool) × (start w handler ≡ some (next, accepted))
      × IsOrderly next
started w handler s =
    let (next, accepted, e) = value_of (start w handler) (start-goes_on w handler s) in
    (next, accepted, e, start-IsOrderly w next handler accepted s e)

pub stop-IsOrderly : (w : Worker) → IsOrderly w → IsOrderly (stop w)
unfolding stop
stop-IsOrderly w s = record {
  joined = ground (arith, s.joined);
  handled = λ h. ground (arith, s.handled);
}

pub destroy-goes_on : (w : Worker) → IsOrderly w → destroy w ≢ none
unfolding destroy stop
destroy-goes_on w s = ground (arith, s.joined)
