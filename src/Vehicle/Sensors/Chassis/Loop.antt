-- ===== src/Vehicle/Sensors/Chassis/Loop.antt =====
-- vehicle_client/sensors/chassis.cc: updateLoop of CanBusChassisSource, over the arithmetic of the
-- processor.
use Prim.Native.Nat.{◌%◌}
use whl_air.Base.{ℕ, suc, zero, Option, none, some, List, [], ◌∷◌, ◌++◌, if◌then◌else◌}
use whl_air.Base.Int.{ℤ, pos, negsuc}
use whl_air.Vehicle.Sensors.{Worker, Handler, idle}
use whl_air.Vehicle.Sensors.Chassis.{start_updates, stop_updates}
use whl_air.Vehicle.Sensors.Chassis.Arithmetic.{Arithmetic}

-- The fields of the protobuf message that the loop sets.
pub record Chassis {ℓ} (W : Type ℓ) : Type ℓ where
  pub speed_mps : W
  pub gear : ℤ
  pub throttle_percentage : W
  pub brake_percentage : W
  pub steering_percentage : W

-- The variables of updateLoop; its `gear` is what it has last stored in the message.
pub record Loop {ℓ} (W : Type ℓ) : Type ℓ where
  pub speed : W
  pub dummy_state : Chassis W

-- The source, with the variables of the loop that its thread runs.
pub record Source {ℓ} (W : Type ℓ) : Type ℓ where
  pub worker : Worker
  pub loop : Loop W

-- A state that is handed to a handler.
abbrev pub Update {ℓ} : Type ℓ → Type ℓ
Update W = Handler × Chassis W

-- The calls of the two methods, and a round of the loop, from the test of the flag to the sleep.
pub data Event : Type 0 where
  starts : Option Handler → Event
  stops rounds : Event

abbrev opposite : ℕ → ℤ
opposite zero = pos zero
opposite (suc n) = negsuc n

-- `%` on int, by a positive number: the remainder has the sign of the dividend.
unfoldable pub remainder : ℤ → ℕ → ℤ
remainder (pos n) m = pos (n % m)
remainder (negsuc n) m = opposite (suc n % m)

module _ {ℓ} {W : Type ℓ} ⦃a : Arithmetic W⦄ where
  open a use {nought, tenth, limit, two, plus, over, exceeds, to_int}

  -- What updateLoop begins with.
  unfoldable pub loop_begins : Loop W
  loop_begins = record {
    speed = nought;
    dummy_state = record {
      speed_mps = nought;
      gear = pos 0;
      throttle_percentage = nought;
      brake_percentage = nought;
      steering_percentage = nought;
    };
  }

  -- `speed += 0.1; if (speed > 10.0) speed = 0.0;`
  unfoldable pub next_speed : W → W
  next_speed speed = let more = plus speed tenth in if exceeds more limit then nought else more

  -- `(int)(speed / 2.0) % 3`: none for a conversion that is undefined.
  unfoldable pub gear_of : W → Option ℤ
  unfolding remainder
  gear_of speed = elim (to_int (over speed two)) [ none ↦ none | some n ↦ some (remainder n 3) ]

  abbrev handed : Option Handler → Chassis W → List (Update W)
  handed none state = []
  handed (some handler) state = (handler, state) ∷ []

  -- One round of the loop, behind the test of the flag.
  unfoldable pub loop_round : Option Handler → Loop W → Option (Loop W × List (Update W))
  unfolding next_speed gear_of
  loop_round handler l =
      let speed = next_speed l.speed in
      elim (gear_of speed) [
        | none ↦ none
        | some gear ↦
            let state = record l.dummy_state { speed_mps = speed; gear = gear } in
            some (record { speed = speed; dummy_state = state }, handed handler state)
      ]

  -- `none`: the process has ended, or its behaviour is undefined. A start that makes a thread begins
  -- the loop anew.
  unfoldable pub step : Source W → Event → Option (Source W × List (Update W))
  unfolding start_updates stop_updates loop_begins loop_round
  step s (starts handler) = elim (start_updates s.worker handler) [
    | none ↦ none
    | some next ↦
        some (
          record { worker = next.0; loop = if s.worker.is_running then s.loop else loop_begins },
          [],
        )
  ]
  step s stops = some (record s { worker = stop_updates s.worker }, [])
  step s rounds =
      if s.worker.is_running
      then (elim (loop_round s.worker.handler s.loop) [
        | none ↦ none
        | some r ↦ some (record s { loop = r.0 }, r.1)
      ])
      else some (s, [])

  -- The constructor.
  unfoldable pub created : Source W
  unfolding loop_begins
  created = record { worker = idle; loop = loop_begins }

  abbrev pub followed :
      List (Update W) → Option (Source W × List (Update W)) → Option (Source W × List (Update W))
  followed first none = none
  followed first (some r) = some (r.0, first ++ r.1)

  -- The source after the events, and all that it has handed on, in order.
  unfoldable pub run : Source W → List Event → Option (Source W × List (Update W))
  unfolding step
  run s [] = some (s, [])
  run s (e ∷ rest) = elim (step s e) [ none ↦ none | some r ↦ followed r.1 (run r.0 rest) ]
