-- ===== src/Vehicle/Sensors/Chassis/Published.antt =====
-- What updateLoop of vehicle_client/sensors/chassis.cc hands on, through every history of its source.
use whl_air.Base.{
  ◌≡◌, ◌≢◌, ◌∙◌, refl, ap, true, false, Option, none, some, List, [], ◌∷◌, ◌++◌, arith,
}
use whl_air.Vehicle.Sensors.{Worker, Handler}
use whl_air.Vehicle.Sensors.Chassis.{start_updates, stop_updates, destroy}
use whl_air.Vehicle.Sensors.Chassis.Arithmetic.{Arithmetic, IsIeee}
use whl_air.Vehicle.Sensors.Chassis.Loop.{
  Source, Update, Event, starts, stops, rounds, loop_begins, followed, step, created, run,
}
use whl_air.Vehicle.Sensors.Chassis.Bounds.{
  AllInRange, handlers, IsReady, loop_round-ready, begins-IsReady, AllInRange-append,
  handlers-append,
}

-- Who receives a state in each round: the handler of the start that is in force. A start takes effect
-- where none is in force.
pub receivers : Option Handler → List Event → List Handler
receivers in_force [] = []
receivers none (starts handler ∷ rest) = receivers handler rest
receivers (some k) (starts handler ∷ rest) = receivers (some k) rest
receivers in_force (stops ∷ rest) = receivers none rest
receivers none (rounds ∷ rest) = receivers none rest
receivers (some k) (rounds ∷ rest) = k ∷ receivers (some k) rest

-- The worker runs for the handler, or not at all.
abbrev IsServing : Worker → Option Handler → Type 0
IsServing w none = (w.is_running ≡ false) × (w.joinable ≡ false)
IsServing w (some k) = (w.is_running ≡ true) × (w.joinable ≡ true) × (w.handler ≡ some k)

serving-destroy : (w : Worker) (f : Option Handler) → IsServing w f → destroy w ≢ none
unfolding destroy
serving-destroy w none h = ground (arith, h)
serving-destroy w (some k) h = ground (arith, h)

module _ {ℓ} {W : Type ℓ} ⦃a : Arithmetic W⦄ where
  -- An event goes well: what it hands on, and for whom the source runs after it.
  record GoesWell (s : Source W) (e : Event) (f : Option Handler) : Type ℓ where
    next : Source W
    updates : List (Update W)
    in_force : Option Handler
    ran : step s e ≡ some (next, updates)
    ready : IsReady next.loop
    serving : IsServing next.worker in_force
    in_range : AllInRange updates
    served :
        (rest : List Event) → handlers updates ++ receivers in_force rest ≡ receivers f (e ∷ rest)

  abbrev Given : Source W → Option Handler → Type ℓ
  Given s f = IsIeee W × IsReady s.loop × IsServing s.worker f

  idle_step : (s : Source W) (e : Event) → Given s none → GoesWell s e none
  unfolding step start_updates stop_updates receivers
  idle_step s (starts none) (laws, ready, h) = record {
    next = record { worker = s.worker; loop = loop_begins };
    updates = [];
    in_force = none;
    ran = ground (arith, h);
    ready = begins-IsReady laws;
    serving = h;
    in_range = tt;
    served = λ rest. refl;
  }
  idle_step s (starts (some k)) (laws, ready, h) = record {
    next = record {
      worker = record { is_running = true; joinable = true; handler = some k };
      loop = loop_begins;
    };
    updates = [];
    in_force = some k;
    ran = ground (arith, h);
    ready = begins-IsReady laws;
    serving = (refl, refl, refl);
    in_range = tt;
    served = λ rest. refl;
  }
  idle_step s stops (laws, ready, h) = record {
    next = s;
    updates = [];
    in_force = none;
    ran = ground (arith, h);
    ready = ready;
    serving = h;
    in_range = tt;
    served = λ rest. refl;
  }
  idle_step s rounds (laws, ready, h) = record {
    next = s;
    updates = [];
    in_force = none;
    ran = ground (arith, h);
    ready = ready;
    serving = h;
    in_range = tt;
    served = λ rest. refl;
  }

  second_start :
      (s : Source W) (f : Option Handler) (k : Handler)
      → IsServing s.worker (some k)
      → step s (starts f) ≡ some (s, [])
  unfolding step start_updates
  second_start s none k h = ground (arith, h)
  second_start s (some j) k h = ground (arith, h)

  running_step : (s : Source W) (e : Event) (k : Handler) → Given s (some k) → GoesWell s e (some k)
  unfolding step start_updates stop_updates receivers
  running_step s (starts f) k (laws, ready, h) = record {
    next = s;
    updates = [];
    in_force = some k;
    ran = second_start s f k h;
    ready = ready;
    serving = h;
    in_range = tt;
    served = λ rest. refl;
  }
  running_step s stops k (laws, ready, h) = record {
    next = record s { worker = record s.worker { is_running = false; joinable = false } };
    updates = [];
    in_force = none;
    ran = ground (arith, h);
    ready = ready;
    serving = (refl, refl);
    in_range = tt;
    served = λ rest. refl;
  }
  running_step s rounds k (laws, ready, h) =
      let (next, state, e, later, range) = loop_round-ready k s.loop laws ready in
      record {
        next = record s { loop = next };
        updates = (k, state) ∷ [];
        in_force = some k;
        ran = ground (arith, h, e);
        ready = later;
        serving = h;
        in_range = (range, tt);
        served = λ rest. refl;
      }

  one_step : (s : Source W) (e : Event) (f : Option Handler) → Given s f → GoesWell s e f
  one_step s e none h = idle_step s e h
  one_step s e (some k) h = running_step s e k h

  run-updates :
      (s : Source W) (history : List Event) (f : Option Handler)
      → Given s f
      → (after : Source W) × (updates : List (Update W)) × (run s history ≡ some (after, updates))
        × AllInRange updates
        × (handlers updates ≡ receivers f history)
        × (destroy after.worker ≢ none)
  unfolding run receivers
  run-updates s [] f (laws, ready, h) = (s, [], refl, tt, refl, serving-destroy s.worker f h)
  run-updates s (e ∷ rest) f h =
      let w = one_step s e f h in
      let (after, updates, ran, range, served, ends) =
        run-updates w.next rest w.in_force (h.0, w.ready, w.serving) in
      (
        after,
        w.updates ++ updates,
        ap (λ r. elim r [ none ↦ none | some n ↦ followed n.1 (run n.0 rest) ]) w.ran
            ∙ ap (followed w.updates) ran,
        AllInRange-append w.updates updates w.in_range range,
        handlers-append w.updates updates
            ∙ ap (λ l. handlers w.updates ++ l) served
            ∙ w.served rest,
        ends,
      )

  -- If the arithmetic is that of IEEE 754, every history of starts, stops and rounds of the chassis
  -- source after its construction goes on, without an undefined conversion, and its destructor does
  -- not end the process. Every state that its rounds hand on has a speed from 0.0 to 10.0, a gear of
  -- 0, 1 or 2 and percentages of 0.0. There is one state for each round in which a start is in force,
  -- handed to the handler of that start.
  pub created-publishes :
      (history : List Event)
      → IsIeee W
      → (after : Source W) × (updates : List (Update W)) × (run created history
          ≡ some (after, updates))
        × AllInRange updates
        × (handlers updates ≡ receivers none history)
        × (destroy after.worker ≢ none)
  unfolding created
  created-publishes history laws =
      run-updates created history none (laws, begins-IsReady laws, (refl, refl))
