-- ===== src/SelfTest.antt =====
-- What the self tests of vehicle_client/vehicle_client_app.cc and cockpit_client/cockpit_client_app.cc
-- share: a script of critical sections and commands of the main thread, with what the other threads
-- do and whether a stop is requested in between.
use whl_air.Base.{
  ℕ, suc, ◌+◌, String, ◌==◌, ◌≡◌, refl, ap, sym, ◌∙◌, ◌≤◌, Bool, true, false, Option, none, some,
  List, [], ◌∷◌, arith, if◌then◌else◌,
}

-- What happens before a step: the rounds of the other threads, and the flag `g_stop_requested` where
-- the test reads it.
pub record Moment (T : Type 0) : Type 0 where
  pub stop_requested : Bool
  pub meanwhile : List T

-- A step: something that is done, or a command, which must be accepted, and before which the flag is
-- read.
pub data Step (A : Type 0) : Type 0 where
  does : A → Step A
  demands : A → Step A

module _ {S T : Type 0} (tick : S → T → S) where
  unfoldable pub ticks : S → List T → S
  ticks s [] = s
  ticks s (t ∷ rest) = ticks (tick s t) rest

module _ {S A T : Type 0} (tick : S → T → S) (act : S → A → S × Bool) where
  -- The steps from the n-th on; `none` where the test returns false before its end.
  unfoldable pub perform : (ℕ → Moment T) → ℕ → S → List (Step A) → Option S
  unfolding ticks
  perform moments n s [] = some (ticks tick s (moments n).meanwhile)
  perform moments n s (does a ∷ rest) =
      perform moments (suc n) (act (ticks tick s (moments n).meanwhile) a).0 rest
  perform moments n s (demands a ∷ rest) =
      let (next, accepted) = act (ticks tick s (moments n).meanwhile) a in
      let end = perform moments (suc n) next rest in
      if (moments n).stop_requested then none else if accepted then end else none

module _ {S A T : Type 0} (tick : S → T → S) (act : S → A → S × Bool) where
  -- The moment behind the last step.
  abbrev pub end_of : ℕ → List (Step A) → ℕ
  end_of n [] = n
  end_of n (e ∷ rest) = end_of (suc n) rest

  -- A test that comes to its end has had the rounds of that moment last.
  pub perform-ticks :
      (moments : ℕ → Moment T) (n : ℕ) (s : S) (steps : List (Step A)) (last : S)
      → perform tick act moments n s steps ≡ some last
      → (before : S) × (last ≡ ticks tick before (moments (end_of n steps)).meanwhile)
  unfolding perform
  perform-ticks moments n s [] last e = (s, cc)
  perform-ticks moments n s (does a ∷ rest) last e =
      perform-ticks moments (suc n) (act (ticks tick s (moments n).meanwhile) a).0 rest last e
  perform-ticks moments n s (demands a ∷ rest) last e =
      perform-ticks moments (suc n) (act (ticks tick s (moments n).meanwhile) a).0 rest last
        (ground arith)

-- The loop over a timeline: the expected entries from `cursor` on.
unfoldable pub from_cursor : List String → List String → List String
from_cursor expected [] = expected
from_cursor [] (entry ∷ timeline) = []
from_cursor (next ∷ expected) (entry ∷ timeline) =
    from_cursor (if entry == next then expected else next ∷ expected) timeline

-- `cursor == expected.size()`
abbrev pub is_at_end : List String → Bool
is_at_end [] = true
is_at_end (next ∷ expected) = false

-- The test seen through a part of the state that the other threads leave alone and that decides what
-- the steps do.
module _ {S : Type 0} (core : S → S) where
  abbrev pub seen : S × Bool → S × Bool
  seen (s, accepted) = (core s, accepted)

  abbrev pub map_core : Option S → Option S
  map_core none = none
  map_core (some s) = some (core s)

  map_core-some :
      (r : Option S) (final : S)
      → map_core r ≡ some final
      → (last : S) × (r ≡ some last) × (core last ≡ final)
  map_core-some none final e = cc
  map_core-some (some last) final e = (last, refl, cc)

module _ {S A T : Type 0} (tick : S → T → S) (act : S → A → S × Bool) (core : S → S) where
  -- The test without the other threads and without a request to stop, on that part.
  unfoldable pub quiet : S → List (Step A) → Option S
  quiet s [] = some s
  quiet s (does a ∷ rest) = quiet (core (act s a).0) rest
  quiet s (demands a ∷ rest) =
      let (next, accepted) = act s a in
      let end = quiet (core next) rest in if accepted then end else none

  module _ (core-tick : (s : S) (t : T) → core (tick s t) ≡ core s)
      (core-act : (s : S) (a : A) → seen core (act s a) ≡ seen core (act (core s) a))
      (moments : ℕ → Moment T) (unstopped : (n : ℕ) → (moments n).stop_requested ≡ false) where
    core-ticks : (s : S) (l : List T) → core (ticks tick s l) ≡ core s
    unfolding ticks
    core-ticks s [] = refl
    core-ticks s (t ∷ rest) = core-ticks (tick s t) rest ∙ core-tick s t

    seen-act :
        (s : S) (a : A) (l : List T)
        → seen core (act (ticks tick s l) a) ≡ seen core (act (core s) a)
    seen-act s a l = core-act (ticks tick s l) a ∙ ap (λ r. seen core (act r a)) (core-ticks s l)

    pub perform-quiet :
        (n : ℕ) (s : S) (steps : List (Step A))
        → map_core core (perform tick act moments n s steps) ≡ quiet (core s) steps
    unfolding perform quiet
    perform-quiet n s [] = ap (λ r. some r) (core-ticks s (moments n).meanwhile)
    perform-quiet n s (does a ∷ rest) =
        perform-quiet (suc n) (act (ticks tick s (moments n).meanwhile) a).0 rest
        ∙ ap (λ (r : S × Bool). quiet r.0 rest) (seen-act s a (moments n).meanwhile)
    perform-quiet n s (demands a ∷ rest) =
        let after = act (ticks tick s (moments n).meanwhile) a in
        ground (arith, unstopped n, perform-quiet (suc n) after.0 rest)
        ∙ ap (λ (r : S × Bool). if r.1 then quiet r.0 rest else none)
            (seen-act s a (moments n).meanwhile)

    -- The end of the test, where it comes to one.
    pub performed :
        (s : S) (steps : List (Step A)) (final : S)
        → quiet (core s) steps ≡ some final
        → (last : S) × (perform tick act moments 0 s steps ≡ some last) × (core last ≡ final)
    performed s steps final e =
        map_core-some core (perform tick act moments 0 s steps) final (perform-quiet 0 s steps ∙ e)

-- A counter that no round of another thread lowers grows along the script by what its steps add.
module _ {S A T : Type 0} (tick : S → T → S) (act : S → A → S × Bool) (count : S → ℕ)
    (added : A → ℕ) where
  unfoldable pub added_by : List (Step A) → ℕ
  added_by [] = 0
  added_by (does a ∷ rest) = added a + added_by rest
  added_by (demands a ∷ rest) = added a + added_by rest

  module _ (count-tick : (s : S) (t : T) → count s ≤ count (tick s t))
      (count-act : (s : S) (a : A) → count s + added a ≤ count (act s a).0)
      (moments : ℕ → Moment T) where
    count-ticks : (s : S) (l : List T) → count s ≤ count (ticks tick s l)
    unfolding ticks
    count-ticks s [] = omega arith
    count-ticks s (t ∷ rest) = omega (arith, count-tick s t, count-ticks (tick s t) rest)

    pub count-perform :
        (n : ℕ) (s : S) (steps : List (Step A)) (last : S)
        → perform tick act moments n s steps ≡ some last
        → count s + added_by steps ≤ count last
    unfolding perform added_by
    count-perform n s [] last e =
        let end : ticks tick s (moments n).meanwhile ≡ last = cc in
        rw (sym end) (omega (arith, count-ticks s (moments n).meanwhile))
    count-perform n s (does a ∷ rest) last e =
        let here = ticks tick s (moments n).meanwhile in
        omega (
          arith,
          count-ticks s (moments n).meanwhile,
          count-act here a,
          count-perform (suc n) (act here a).0 rest last e,
        )
    count-perform n s (demands a ∷ rest) last e =
        let here = ticks tick s (moments n).meanwhile in
        let onward : perform tick act moments (suc n) (act here a).0 rest ≡ some last =
          ground arith in
        omega (
          arith,
          count-ticks s (moments n).meanwhile,
          count-act here a,
          count-perform (suc n) (act here a).0 rest last onward,
        )
