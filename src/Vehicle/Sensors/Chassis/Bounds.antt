-- ===== src/Vehicle/Sensors/Chassis/Bounds.antt =====
-- The range of what updateLoop of vehicle_client/sensors/chassis.cc computes in a round.
use Prim.Native.Nat.{◌%◌}
use whl_air.Base.{
  ℕ, ◌<◌, ◌≡◌, refl, ap, Bool-cases, inl, inr, none, some, List, [], ◌∷◌, ◌++◌, arith,
}
use whl_air.Base.Int.{pos}
use whl_air.Vehicle.Sensors.{Handler}
use whl_air.Vehicle.Sensors.Chassis.Arithmetic.{Arithmetic, IsIeee, AtMost}
use whl_air.Vehicle.Sensors.Chassis.Loop.{
  Chassis, Loop, Update, remainder, loop_begins, next_speed, gear_of, loop_round,
}

module _ {ℓ} {W : Type ℓ} ⦃a : Arithmetic W⦄ where
  open a use {nought, tenth, limit, two, plus, over, exceeds, to_int}

  -- The speed is in 0.0 .. 10.0, the gear one of 0, 1 and 2, and the percentages are 0.0.
  pub record IsInRange (state : Chassis W) : Type ℓ where
    pub low : AtMost nought state.speed_mps
    pub high : AtMost state.speed_mps limit
    pub gear : (n : ℕ) × (state.gear ≡ pos n) × (n < 3)
    pub throttle : state.throttle_percentage ≡ nought
    pub brake : state.brake_percentage ≡ nought
    pub steering : state.steering_percentage ≡ nought

  abbrev pub AllInRange : List (Update W) → Type ℓ
  AllInRange [] = Unit
  AllInRange (u ∷ rest) = IsInRange u.1 × AllInRange rest

  abbrev pub handlers : List (Update W) → List Handler
  handlers [] = []
  handlers (u ∷ rest) = u.0 ∷ handlers rest

  -- What the loop keeps from round to round.
  pub record IsReady (l : Loop W) : Type ℓ where
    pub low : AtMost nought l.speed
    pub high : AtMost l.speed limit
    pub throttle : l.dummy_state.throttle_percentage ≡ nought
    pub brake : l.dummy_state.brake_percentage ≡ nought
    pub steering : l.dummy_state.steering_percentage ≡ nought

  next_speed-bounds :
      (x : W)
      → IsIeee W
      → AtMost nought x
      → AtMost x limit
      → (AtMost nought (next_speed x)) × (AtMost (next_speed x) limit)
  unfolding next_speed
  next_speed-bounds x laws low high =
      let more = laws.plus_grows x low high in
      let order =
        laws.exceeds-not-at_most (plus x tenth) limit (laws.numbers x (plus x tenth) more).1
          (laws.numbers x limit high).1 in
      elim (Bool-cases (exceeds (plus x tenth) limit)) [
        | inl e ↦ ground (arith, e, (laws.numbers nought x low).0, laws.constants)
        | inr e ↦ ground (arith, e, order, laws.chain nought x (plus x tenth) low more)
      ]

  gear_of-range :
      (y : W)
      → IsIeee W
      → AtMost nought y
      → AtMost y limit
      → (n : ℕ) × (gear_of y ≡ some (pos n)) × (n < 3)
  unfolding gear_of remainder
  gear_of-range y laws low high =
      let (b, e, _, _) =
        laws.to_int_mono (over nought two) (over y two) (over limit two) 0 5
          (laws.over_mono nought y low) (laws.over_mono y limit high) laws.nought_halved
          laws.limit_halved in
      (b % 3, ap (λ r. elim r [ none ↦ none | some n ↦ some (remainder n 3) ]) e, omega arith)

  pub loop_round-ready :
      (k : Handler) (l : Loop W)
      → IsIeee W
      → IsReady l
      → (next : Loop W) × (state : Chassis W) × (loop_round (some k) l
          ≡ some (next, (k, state) ∷ []))
        × IsReady next
        × IsInRange state
  unfolding loop_round
  loop_round-ready k l laws s =
      let (low, high) = next_speed-bounds l.speed laws s.low s.high in
      let (n, e, small) = gear_of-range (next_speed l.speed) laws low high in
      let state = record l.dummy_state { speed_mps = next_speed l.speed; gear = pos n } in
      (
        record { speed = next_speed l.speed; dummy_state = state },
        state,
        ground (arith, e),
        record {
          low = low;
          high = high;
          throttle = s.throttle;
          brake = s.brake;
          steering = s.steering;
        },
        record {
          low = low;
          high = high;
          gear = (n, refl, small);
          throttle = s.throttle;
          brake = s.brake;
          steering = s.steering;
        },
      )

  pub begins-IsReady : IsIeee W → IsReady loop_begins
  unfolding loop_begins
  begins-IsReady laws = record {
    low = (laws.numbers nought limit laws.constants).0;
    high = laws.constants;
    throttle = refl;
    brake = refl;
    steering = refl;
  }

  pub AllInRange-append :
      (us vs : List (Update W)) → AllInRange us → AllInRange vs → AllInRange (us ++ vs)
  AllInRange-append [] vs h k = k
  AllInRange-append (u ∷ us) vs h k = (h.0, AllInRange-append us vs h.1 k)

  pub handlers-append : (us vs : List (Update W)) → handlers (us ++ vs) ≡ handlers us ++ handlers vs
  handlers-append [] vs = refl
  handlers-append (u ∷ us) vs = ap (λ l. u.0 ∷ l) (handlers-append us vs)
