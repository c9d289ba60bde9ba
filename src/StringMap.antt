-- ===== src/StringMap.antt =====
-- `std::map<std::string, V>`: an association list in ascending order of the keys, by code points as
-- `std::string` compares bytes. An operation walks the list from its front; a lookup, an insertion
-- or a removal means what it does in the source also on a list that is out of order.
use Prim.Native.Nat.{Ordering}
use Prim.Native.String.{compare}
use whl_air.Base.{
  String, ◌==◌, eq_iff, ◌≡◌, refl, Bool, true, false, Option, none, some, List, [], ◌∷◌, arith,
  if◌then◌else◌,
}

abbrev pub Map {ℓ} : Type ℓ → Type ℓ
Map V = List (String × V)

-- `std::less<std::string>`.
before : String → String → Bool
before j k = elim (compare j k) [ Ordering.lt ↦ true | _ ↦ false ]

module _ {ℓ} {V : Type ℓ} where
  -- `m.find(k)`
  unfoldable pub find : String → Map V → Option V
  find k [] = none
  find k ((j, v) ∷ m) = if j == k then some v else find k m

  -- `m.count(k)` as a truth value
  unfoldable pub contains : String → Map V → Bool
  contains k [] = false
  contains k ((j, v) ∷ m) = if j == k then true else contains k m

  -- `m[k] = v`
  unfoldable pub insert : String → V → Map V → Map V
  unfolding before
  insert k v [] = (k, v) ∷ []
  insert k v ((j, w) ∷ m) =
      let rest = insert k v m in
      if j == k then (k, v) ∷ m else if before k j then (k, v) ∷ (j, w) ∷ m else (j, w) ∷ rest

  -- `m.erase(k)`
  unfoldable pub erase : String → Map V → Map V
  erase k [] = []
  erase k ((j, v) ∷ m) = let rest = erase k m in if j == k then rest else (j, v) ∷ rest

  pub find-insert :
      (k j : String) (v : V) (m : Map V)
      → find j (insert k v m) ≡ (if k == j then some v else find j m)
  unfolding find insert
  find-insert k j v [] = refl
  find-insert k j v ((i, w) ∷ m) =
      ground (arith, eq_iff k j, eq_iff i k, eq_iff i j, find-insert k j v m)

  pub find-erase :
      (k j : String) (m : Map V) → find j (erase k m) ≡ (if k == j then none else find j m)
  unfolding find erase
  find-erase k j [] = ground arith
  find-erase k j ((i, w) ∷ m) = ground (arith, eq_iff k j, eq_iff i k, eq_iff i j, find-erase k j m)
