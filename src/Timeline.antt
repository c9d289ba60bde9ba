-- ===== src/Timeline.antt =====
-- The timelines of both runtime states (`mode_timeline`, `state_timeline`): a list of state names
-- to which PushMode and PushState append a name that differs from the last one.
use whl_air.Base.{
  String, ◌≡◌, refl, ◌≢◌, ◌==◌, eq_iff, Bool, true, false, not, Option, none, some, List, [], ◌∷◌,
  ◌++◌, arith, if◌then◌else◌, Bool-cases, inl, inr,
}

-- `timeline.empty() || timeline.back() != entry`
pub is_new : List String → String → Bool
is_new [] entry = true
is_new (x ∷ []) entry = not (x == entry)
is_new (x ∷ y ∷ rest) entry = is_new (y ∷ rest) entry

unfoldable pub push : List String → String → List String
unfolding is_new
push timeline entry = if is_new timeline entry then timeline ++ entry ∷ [] else timeline

abbrev pub last? : List String → Option String
last? [] = none
last? (x ∷ []) = some x
last? (x ∷ y ∷ rest) = last? (y ∷ rest)

-- Every two neighbours are related.
abbrev pub Linked : (String → String → Type 0) → List String → Type 0
Linked R [] = Unit
Linked R (x ∷ []) = Unit
Linked R (x ∷ y ∷ rest) = R x y × Linked R (y ∷ rest)

last?-append : (xs : List String) (m : String) → last? (xs ++ m ∷ []) ≡ some m
last?-append [] m = refl
last?-append (x ∷ []) m = refl
last?-append (x ∷ y ∷ rest) m = last?-append (y ∷ rest) m

last?-not_new : (xs : List String) (m : String) → is_new xs m ≡ false → last? xs ≡ some m
unfolding is_new
last?-not_new [] m h = ground arith
last?-not_new (x ∷ []) m h = ground (arith, eq_iff x m)
last?-not_new (x ∷ y ∷ rest) m h = last?-not_new (y ∷ rest) m h

-- What is pushed is the last entry.
pub last?-push : (xs : List String) (m : String) → last? (push xs m) ≡ some m
unfolding push
last?-push xs m = elim (Bool-cases (is_new xs m)) [
  | inl e ↦ rw e (last?-append xs m)
  | inr e ↦ rw e (last?-not_new xs m e)
]

module _ (R : String → String → Type 0) where
  append-Linked :
      (xs : List String) (m : String)
      → Linked R xs
      → is_new xs m ≡ true
      → ((x : String) → last? xs ≡ some x → x ≢ m → R x m)
      → Linked R (xs ++ m ∷ [])
  unfolding is_new
  append-Linked [] m h e r = tt
  append-Linked (x ∷ []) m h e r = (r x refl (ground (arith, eq_iff x m)), tt)
  append-Linked (x ∷ y ∷ rest) m h e r = (h.0, append-Linked (y ∷ rest) m h.1 e r)

  -- A push keeps the links if the last entry, where it differs, is related to the new one.
  pub push-Linked :
      (xs : List String) (m : String)
      → Linked R xs
      → ((x : String) → last? xs ≡ some x → x ≢ m → R x m)
      → Linked R (push xs m)
  unfolding push
  push-Linked xs m h r = elim (Bool-cases (is_new xs m)) [
    | inl e ↦ rw e (append-Linked xs m h e r)
    | inr e ↦ rw e h
  ]
