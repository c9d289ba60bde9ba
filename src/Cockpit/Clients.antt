-- ===== src/Cockpit/Clients.antt =====
-- `std::set<int> ws_clients`: the connection ids of the web socket clients. The program inserts,
-- erases and asks for the size, so the order of the elements is not modelled.
use whl_air.Base.{ℕ, suc, ◌≡◌, Bool, true, false, ◌||◌, List, [], ◌∷◌, arith, if◌then◌else◌}
use whl_air.Base.Int.{ℤ, int_eq, int_eq_iff}

pub member : ℤ → List ℤ → Bool
member id [] = false
member id (x ∷ xs) = int_eq x id || member id xs

unfoldable pub insert : ℤ → List ℤ → List ℤ
unfolding member
insert id xs = if member id xs then xs else id ∷ xs

unfoldable pub erase : ℤ → List ℤ → List ℤ
erase id [] = []
erase id (x ∷ xs) = let rest = erase id xs in if int_eq x id then rest else x ∷ rest

unfoldable pub size : List ℤ → ℕ
size [] = 0
size (x ∷ xs) = suc (size xs)

-- No id is held twice.
abbrev pub IsSetOfIds : List ℤ → Type 0
IsSetOfIds [] = Unit
IsSetOfIds (x ∷ xs) = (member x xs ≡ false) × IsSetOfIds xs

pub member-insert :
    (id j : ℤ) (xs : List ℤ) → member j (insert id xs) ≡ (if int_eq id j then true else member j xs)
unfolding insert
member-insert id j xs = ground (arith, int_eq_iff id j)

pub member-erase :
    (id j : ℤ) (xs : List ℤ) → member j (erase id xs) ≡ (if int_eq id j then false else member j xs)
unfolding erase member
member-erase id j [] = ground arith
member-erase id j (x ∷ xs) =
    ground (arith, member-erase id j xs, int_eq_iff id j, int_eq_iff x id, int_eq_iff x j)

pub insert-IsSetOfIds : (id : ℤ) (xs : List ℤ) → IsSetOfIds xs → IsSetOfIds (insert id xs)
unfolding insert
insert-IsSetOfIds id xs s = ground arith

pub erase-IsSetOfIds : (id : ℤ) (xs : List ℤ) → IsSetOfIds xs → IsSetOfIds (erase id xs)
unfolding erase
erase-IsSetOfIds id [] s = tt
erase-IsSetOfIds id (x ∷ xs) s =
    ground
      (arith, erase-IsSetOfIds id xs s.1, member-erase id x xs, int_eq_iff id x, int_eq_iff x id)
