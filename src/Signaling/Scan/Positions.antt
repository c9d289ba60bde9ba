-- ===== src/Signaling/Scan/Positions.antt =====
-- The search by positions of signaling/signaling_message.cc and the search without them: where a token
-- is found, what stands before and behind it.
use Prim.Native.Nat.{compare, Ordering}
use Prim.Native.Char.{Char, code, len_utf8}
use Prim.Native.String.{[], ◌∷◌, len, find, begins, same}
use Prim.Native.String.append
use Prim.Native.String.len
use Prim.Native.String.find
use text.Mathlib.TextEquality.{codes_equal}
use whl_air.Base.{
  ℕ, suc, ◌+◌, String, ◌<>◌, ◌≡◌, refl, ap, sym, ◌∙◌, true, false, Bool-cases, ◌⊎◌, inl, inr, none,
  some, eqb, arith,
}
use whl_air.Signaling.Scan.{strip, behind}

eqb-compare : (a b : ℕ) → eqb a b ≡ true → compare a b ≡ Ordering.eq
eqb-compare a b e = ground (arith, e)

-- What `strip` leaves, and what it says of `begins`.
abbrev Stripped : String → String → Type 0
Stripped s t =
    (rest : String) × (strip s t ≡ some rest) × (s ≡ t <> rest) × ((y n : ℕ) → begins s t y n ≡ y)

abbrev Kept : String → String → Type 0
Kept s t = (strip s t ≡ none) × ((y n : ℕ) → begins s t y n ≡ n)

module _ (c d : Char) (s t : String) where
  equal-Stripped : eqb (code c) (code d) ≡ true → Stripped s t → Stripped (c ∷ s) (d ∷ t)
  unfolding strip
  equal-Stripped e (rest, left, parts, hit) =
      let o = eqb-compare (code c) (code d) e in
      (
        rest,
        ground (arith, e, left),
        (λ i. codes_equal c d o i ∷ parts i) ∙ sym (append.cons d t rest),
        λ y n. ap (λ r. same r (begins s t y n) n) o ∙ hit y n,
      )

  equal-Kept : eqb (code c) (code d) ≡ true → Kept s t → Kept (c ∷ s) (d ∷ t)
  unfolding strip
  equal-Kept e (left, miss) =
      let o = eqb-compare (code c) (code d) e in
      (ground (arith, e, left), λ y n. ap (λ r. same r (begins s t y n) n) o ∙ miss y n)

  other-Kept : eqb (code c) (code d) ≡ false → Kept (c ∷ s) (d ∷ t)
  unfolding strip
  other-Kept e = (ground (arith, e), λ y n. ground (arith, e))

pub strip_cases : (s t : String) → Stripped s t ⊎ Kept s t
unfolding strip
strip_cases s [] = inl (s, refl, sym (append.nil s), λ y n. refl)
strip_cases [] (d ∷ t) = inr (refl, λ y n. refl)
strip_cases (c ∷ s) (d ∷ t) = elim (Bool-cases (eqb (code c) (code d))) [
  | inr e ↦ inr (other-Kept c d s t e)
  | inl e ↦ elim (strip_cases s t) [
    | inl h ↦ inl (equal-Stripped c d s t e h)
    | inr h ↦ inr (equal-Kept c d s t e h)
  ]
]

-- The text in front of the token, and the text behind it.
pub record IsSplit (s t front rest : String) : Type 0 where
  pub parts : s ≡ front <> (t <> rest)
  pub position : find s t ≡ len front

abbrev pub Found : String → String → Type 0
Found s t = (front rest : String) × (behind s t ≡ some rest) × IsSplit s t front rest

abbrev pub Missing : String → String → Type 0
Missing s t = (behind s t ≡ none) × (find s t ≡ suc (len s))

-- The token stands at the beginning.
begun-IsSplit : (s t rest : String) → s ≡ t <> rest → find s t ≡ 0 → IsSplit s t [] rest
begun-IsSplit s t rest e at = record {
  parts = e ∙ sym (append.nil (t <> rest));
  position = at ∙ sym len.nil;
}

module _ (c : Char) (s t : String) where
  first-Found : Stripped (c ∷ s) t → Found (c ∷ s) t
  unfolding behind
  first-Found (rest, left, parts, hit) = (
    [],
    rest,
    ground (arith, left),
    begun-IsSplit (c ∷ s) t rest parts (find.cons c s t ∙ hit 0 (len_utf8 c + find s t)),
  )

  later-Found : Kept (c ∷ s) t → Found s t → Found (c ∷ s) t
  unfolding behind
  later-Found (left, miss) (front, rest, later, split) = (
    c ∷ front,
    rest,
    ground (arith, left, later),
    record {
      parts = ap (λ (w : String). c ∷ w) split.parts ∙ sym (append.cons c front (t <> rest));
      position =
          find.cons c s t
          ∙ miss 0 (len_utf8 c + find s t)
          ∙ ap (λ k. len_utf8 c + k) split.position
          ∙ sym (len.cons c front);
    },
  )

  later-Missing : Kept (c ∷ s) t → Missing s t → Missing (c ∷ s) t
  unfolding behind
  later-Missing (left, miss) (later, off) = (
    ground (arith, left, later),
    find.cons c s t ∙ miss 0 (len_utf8 c + find s t) ∙ (let e = len.cons c s in omega arith),
  )

-- The search without positions finds what `find` does.
pub behind_cases : (s t : String) → Found s t ⊎ Missing s t
unfolding behind
behind_cases [] t = elim (strip_cases [] t) [
  | inl (rest, left, parts, hit) ↦
      inl ([], rest, left, begun-IsSplit [] t rest parts (find.nil t ∙ hit 0 1))
  | inr (left, miss) ↦ inr (left, find.nil t ∙ miss 0 1 ∙ ap suc (sym len.nil))
]
behind_cases (c ∷ s) t = elim (strip_cases (c ∷ s) t) [
  | inl h ↦ inl (first-Found c s t h)
  | inr k ↦ elim (behind_cases s t) [
    | inl h ↦ inl (later-Found c s t k h)
    | inr h ↦ inr (later-Missing c s t k h)
  ]
]
