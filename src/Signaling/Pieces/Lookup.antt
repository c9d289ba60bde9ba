-- ===== src/Signaling/Pieces/Lookup.antt =====
-- What is read of a key in the text of pieces is what stands in the pieces.
use Prim.Native.Char.{Char}
use Prim.Native.String.{[], ◌∷◌}
use whl_air.Base.{
  String, ◌≡◌, refl, ap, ◌∙◌, true, false, Bool-cases, inl, inr, Option, none, some, arith,
}
use whl_air.Base.Int.{ℤ}
use whl_air.Stoi.{stoi}
use whl_air.Signaling.Serialize.{to_string}
use whl_air.Signaling.Scan.{strip, behind, before, is_quote, is_end}
use whl_air.Signaling.Pieces.{
  Pieces, done, text_of, number_of, opened, mark, quote, colon, brace, cat, same, render, lookup,
  lookup_number, or_else, IsPlain, is_letter, IsNext, IsNumberText, IsEnding, IsLaidOut,
  NamesNoNumber, NamesNoText,
}
use whl_air.Signaling.Pieces.Search.{
  token, behind-mark, behind-plain, behind-quote, behind-text, behind-name, behind-key,
  behind-opened,
}

render-IsNext : (ps : Pieces) (tail : String) → IsLaidOut ps tail → IsNext (render ps tail)
render-IsNext done tail h = h
render-IsNext (text_of name v ps) tail h = (refl, refl)
render-IsNext (number_of name n ps) tail h = (refl, refl)
render-IsNext (opened name ps) tail h = (refl, refl)
render-IsNext (mark c ps) tail h = (h.1, h.2)

before-cat : (v s : String) → IsPlain v → before is_quote (cat v (quote ∷ s)) ≡ some v
unfolding before
before-cat [] s p = refl
before-cat (c ∷ v) s p = ground (arith, p.0, before-cat v s p.1)

pub before_end-cat : (v s : String) → IsNumberText v → IsEnding s → before is_end (cat v s) ≡ some v
unfolding before
before_end-cat [] [] p e = elim e [ ]
before_end-cat [] (c ∷ s) p e = ground (arith, e)
before_end-cat (c ∷ v) s p e = ground (arith, p.1, before_end-cat v s p.2 e)

number-IsPlain : (v : String) → IsNumberText v → IsPlain v
number-IsPlain [] p = tt
number-IsPlain (c ∷ v) p = (p.0, number-IsPlain v p.2)

strip-colon : (s more : String) → IsNext s → strip s (colon ∷ more) ≡ none
unfolding strip
strip-colon [] more h = refl
strip-colon (c ∷ s) more h = ground (arith, h.0)

strip-number : (v s : String) → IsNumberText v → IsEnding s → strip (cat v s) (quote ∷ []) ≡ none
unfolding strip
strip-number [] [] p e = elim e [ ]
strip-number [] (c ∷ s) p e = ground (arith, e)
strip-number (c ∷ v) s p e = ground (arith, p.0)

module _ (k : Char) (key more : String) (letter : is_letter k ≡ true)
    (plain : IsPlain (k ∷ key)) where
  abbrev searched : String
  searched = token (k ∷ key) more

  -- A field with a text of another name.
  behind-text_of :
      (name v : String) (ps : Pieces) (tail : String)
      → IsPlain name
      → IsPlain v
      → IsLaidOut ps tail
      → same name (k ∷ key) ≡ false
      → behind (render (text_of name v ps) tail) searched ≡ behind (render ps tail) searched
  unfolding strip
  behind-text_of name v ps tail p q h e =
      behind-name k key more letter plain name (quote ∷ cat v (quote ∷ render ps tail)) p e
      ∙ behind-text k key more letter plain v (render ps tail) q
          (strip-colon (render ps tail) more (render-IsNext ps tail h))
      ∙ behind-quote k key more letter plain (render ps tail) (render-IsNext ps tail h)

  -- A number of another name.
  behind-number_of :
      (name : String) (n : ℤ) (ps : Pieces) (tail : String)
      → IsPlain name
      → IsNumberText (to_string n)
      → same name (k ∷ key) ≡ false
      → behind (render (number_of name n ps) tail) searched ≡ behind (render ps tail) searched
  behind-number_of name n ps tail p q e =
      behind-name k key more letter plain name (cat (to_string n) (render ps tail)) p e
      ∙ behind-plain k key more letter plain (to_string n) (render ps tail)
          (number-IsPlain (to_string n) q)

abbrev pub read : Option String → Option String
read rest = elim rest [ none ↦ none | some rest ↦ before is_quote rest ]

-- What stands between the token of the key and the next quote, in the text of pieces: the first text
-- of that name, and what stands there in the tail if there is none.
pub read-render :
    (k : Char) (key : String) (ps : Pieces) (tail : String)
    → is_letter k ≡ true
    → IsPlain (k ∷ key)
    → IsLaidOut ps tail
    → NamesNoNumber (k ∷ key) ps
    → read (behind (render ps tail) (token (k ∷ key) "\""))
      ≡ or_else (lookup (k ∷ key) ps) (read (behind tail (token (k ∷ key) "\"")))
unfolding strip
read-render k key done tail l p h n = refl
read-render k key (text_of name v ps) tail l p h n = elim (Bool-cases (same name (k ∷ key))) [
  | inl e ↦
      ap read (
        behind-key k key "\"" l p name (quote ∷ cat v (quote ∷ render ps tail))
          (cat v (quote ∷ render ps tail)) h.0 e refl)
      ∙ before-cat v (render ps tail) h.1
      ∙ ground (arith, e)
  | inr e ↦
      ap read (behind-text_of k key "\"" l p name v ps tail h.0 h.1 h.2 e)
      ∙ read-render k key ps tail l p h.2 n
      ∙ ground (arith, e)
]
read-render k key (number_of name m ps) tail l p h n =
    ap read (behind-number_of k key "\"" l p name m ps tail h.0 h.1 n.0)
    ∙ read-render k key ps tail l p h.4 n.1
read-render k key (opened name ps) tail l p h n =
    ap read (
      behind-opened k key "\"" l p name (brace ∷ render ps tail) h.0 refl
      ∙ behind-mark k key "\"" l p brace (render ps tail) refl)
    ∙ read-render k key ps tail l p h.1 n
read-render k key (mark c ps) tail l p h n =
    ap read (behind-mark k key "\"" l p c (render ps tail) h.0)
    ∙ read-render k key ps tail l p h.3 n

abbrev pub read_digits : Option String → Option ℤ
read_digits digits = elim digits [ none ↦ none | some digits ↦ stoi digits ]

abbrev pub read_number : Option String → Option ℤ
read_number rest = elim rest [ none ↦ none | some rest ↦ read_digits (before is_end rest) ]

-- The same for the number that stands between the token of the key and the next comma or brace.
pub read_number-render :
    (k : Char) (key : String) (ps : Pieces) (tail : String)
    → is_letter k ≡ true
    → IsPlain (k ∷ key)
    → IsLaidOut ps tail
    → NamesNoText (k ∷ key) ps
    → read_number (behind (render ps tail) (token (k ∷ key) ""))
      ≡ or_else (lookup_number (k ∷ key) ps) (read_number (behind tail (token (k ∷ key) "")))
unfolding strip
read_number-render k key done tail l p h n = refl
read_number-render k key (text_of name v ps) tail l p h n =
    ap read_number (behind-text_of k key "" l p name v ps tail h.0 h.1 h.2 n.0)
    ∙ read_number-render k key ps tail l p h.2 n.1
read_number-render k key (number_of name m ps) tail l p h n =
    elim (Bool-cases (same name (k ∷ key))) [
      | inl e ↦
          ap read_number (
            behind-key k key "" l p name (cat (to_string m) (render ps tail))
              (cat (to_string m) (render ps tail)) h.0 e refl)
          ∙ ap read_digits (before_end-cat (to_string m) (render ps tail) h.1 h.3)
          ∙ h.2
          ∙ ground (arith, e)
      | inr e ↦
          ap read_number (behind-number_of k key "" l p name m ps tail h.0 h.1 e)
          ∙ read_number-render k key ps tail l p h.4 n
          ∙ ground (arith, e)
    ]
read_number-render k key (opened name ps) tail l p h n =
    ap read_number (
      behind-name k key "" l p name (brace ∷ render ps tail) h.0 n.0
      ∙ behind-mark k key "" l p brace (render ps tail) refl)
    ∙ read_number-render k key ps tail l p h.1 n.1
read_number-render k key (mark c ps) tail l p h n =
    ap read_number (behind-mark k key "" l p c (render ps tail) h.0)
    ∙ read_number-render k key ps tail l p h.3 n
