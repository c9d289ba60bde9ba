-- ===== src/Signaling/Scan/Ends.antt =====
-- Where a character first stands in a text, in signaling/signaling_message.cc: `find` of one character,
-- and of the comma and the closing brace.
use Prim.Native.Char.{Char, code, len_utf8}
use Prim.Native.String.{[], ◌∷◌, len, find}
use Prim.Native.String.append
use Prim.Native.String.len
use Prim.Native.String.find
use text.Mathlib.Text.{find?}
use whl_air.Base.{
  ℕ, suc, ◌+◌, ◌≤◌, String, ◌<>◌, ◌≡◌, refl, ap, sym, ◌∙◌, Bool, true, false, Bool-cases, ◌⊎◌, inl,
  inr, none, some, eqb, arith,
}
use whl_air.Signaling.Scan.{before, is_quote, is_end}

pub find?-found : (s t : String) (at : ℕ) → find s t ≡ at → at ≤ len s → find? s t ≡ some at
find?-found s t at e h = ground (arith, e)

pub find?-missing : (s t : String) → find s t ≡ suc (len s) → find? s t ≡ none
find?-missing s t e = ground (arith, e)

module _ (c d : Char) (s : String) where
  find-here : eqb (code c) (code d) ≡ true → find (c ∷ s) (d ∷ []) ≡ 0
  find-here e = find.cons c s (d ∷ []) ∙ ground (arith, e)

  find-further :
      eqb (code c) (code d) ≡ false → find (c ∷ s) (d ∷ []) ≡ len_utf8 c + find s (d ∷ [])
  find-further e = find.cons c s (d ∷ []) ∙ ground (arith, e)

-- The text before the first character that passes the test, and the one behind it.
pub record IsBefore (test : Char → Bool) (s v rest : String) : Type 0 where
  pub before_some : before test s ≡ some v
  pub parts : s ≡ v <> rest
  pub bound : len v ≤ len s

module _ (test : Char → Bool) (c : Char) (s : String) where
  here-IsBefore : test c ≡ true → IsBefore test (c ∷ s) [] (c ∷ s)
  unfolding before
  here-IsBefore e = record {
    before_some = ground (arith, e);
    parts = sym (append.nil (c ∷ s));
    bound = let l = len.nil in omega arith;
  }

  further-IsBefore :
      (v rest : String)
      → test c ≡ false
      → IsBefore test s v rest
      → IsBefore test (c ∷ s) (c ∷ v) rest
  unfolding before
  further-IsBefore v rest e h = record {
    before_some = ground (arith, e, h.before_some);
    parts = ap (λ (w : String). c ∷ w) h.parts ∙ sym (append.cons c v rest);
    bound = let l = len.cons c v in let m = len.cons c s in let b = h.bound in omega arith;
  }

  further-none : test c ≡ false → before test s ≡ none → before test (c ∷ s) ≡ none
  unfolding before
  further-none e h = ground (arith, e, h)

-- The text before the first quote, and where `find` sees it.
pub quote_cases :
    (s : String)
    → ((v rest : String) × IsBefore is_quote s v rest × (find s "\"" ≡ len v))
      ⊎ ((before is_quote s ≡ none) × (find s "\"" ≡ suc (len s)))
unfolding before
quote_cases [] = inr (refl, refl)
quote_cases (c ∷ s) = elim (Bool-cases (is_quote c)) [
  | inl e ↦ inl ([], c ∷ s, here-IsBefore is_quote c s e, find-here c "\"" s e ∙ sym len.nil)
  | inr e ↦ elim (quote_cases s) [
    | inl (v, rest, h, at) ↦ inl (
      c ∷ v,
      rest,
      further-IsBefore is_quote c s v rest e h,
      find-further c "\"" s e ∙ (let l = len.cons c v in omega arith),
    )
    | inr (h, at) ↦ inr (
      further-none is_quote c s e h,
      find-further c "\"" s e ∙ (let l = len.cons c s in omega arith),
    )
  ]
]

-- One of two numbers is the third, the other is no less.
abbrev pub IsEarlier : ℕ → ℕ → ℕ → Type 0
IsEarlier a b n = ((a ≡ n) × (n ≤ b)) ⊎ ((b ≡ n) × (n ≤ a))

-- The text before the first comma or brace, and where `find` sees the two.
pub end_cases :
    (s : String)
    → ((v rest : String) × IsBefore is_end s v rest × IsEarlier (find s ",") (find s "}") (len v))
      ⊎ ((before is_end s ≡ none) × (find s "," ≡ suc (len s)) × (find s "}" ≡ suc (len s)))
unfolding before
end_cases [] = inr (refl, refl, refl)
end_cases (c ∷ s) = elim (Bool-cases (eqb (code c) 44)) [
  | inl e ↦ inl (
    [],
    c ∷ s,
    here-IsBefore is_end c s (ground (arith, e)),
    inl (find-here c "," s e ∙ sym len.nil, let l = len.nil in omega arith),
  )
  | inr e ↦ elim (Bool-cases (eqb (code c) 125)) [
    | inl f ↦ inl (
      [],
      c ∷ s,
      here-IsBefore is_end c s (ground (arith, e, f)),
      inr (find-here c "}" s f ∙ sym len.nil, let l = len.nil in omega arith),
    )
    | inr f ↦
        let comma = find-further c "," s e in
        let brace = find-further c "}" s f in
        let off : is_end c ≡ false = ground (arith, e, f) in
        elim (end_cases s) [
          | inl (v, rest, h, first) ↦ inl (
            c ∷ v,
            rest,
            further-IsBefore is_end c s v rest off h,
            let l = len.cons c v in ground (arith, comma, brace, l, first),
          )
          | inr (h, a, b) ↦
              let l = len.cons c s in
              inr (further-none is_end c s off h, comma ∙ omega arith, brace ∙ omega arith)
        ]
  ]
]
