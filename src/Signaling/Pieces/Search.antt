-- ===== src/Signaling/Pieces/Search.antt =====
-- The search for the token of a key in front of and behind one piece of a message.
use Prim.Native.Char.{Char, code}
use Prim.Native.String.{[], ◌∷◌}
use whl_air.Base.{String, ◌≡◌, refl, ◌∙◌, true, false, none, some, eqb, arith, if◌then◌else◌}
use whl_air.Signaling.Scan.{strip, behind}
use whl_air.Signaling.Pieces.{quote, colon, cat, same, IsPlain, is_letter, IsNext}

-- What `findQuotedValue` searches for, with a quote for `more`, and `findIntValue`, with nothing.
abbrev pub token : String → String → String
token key more = quote ∷ cat key (quote ∷ colon ∷ more)

-- Before a quote two names are told apart.
strip-cat :
    (v key s u : String)
    → IsPlain v
    → IsPlain key
    → strip (cat v (quote ∷ s)) (cat key (quote ∷ u)) ≡ (if same v key then strip s u else none)
unfolding strip
strip-cat [] [] s u p q = refl
strip-cat [] (k ∷ key) s u p q = ground (arith, q.0)
strip-cat (c ∷ v) [] s u p q = ground (arith, p.0)
strip-cat (c ∷ v) (k ∷ key) s u p q = ground (arith, strip-cat v key s u p.1 q.1)

behind-none : (c : Char) (s t : String) → strip (c ∷ s) t ≡ none → behind (c ∷ s) t ≡ behind s t
unfolding behind
behind-none c s t e = ground (arith, e)

behind-some :
    (c : Char) (s t rest : String) → strip (c ∷ s) t ≡ some rest → behind (c ∷ s) t ≡ some rest
unfolding behind
behind-some c s t rest e = ground (arith, e)

module _ (k : Char) (key more : String) (letter : is_letter k ≡ true)
    (plain : IsPlain (k ∷ key)) where
  abbrev searched : String
  searched = token (k ∷ key) more

  pub behind-mark :
      (c : Char) (s : String)
      → eqb (code c) 34 ≡ false
      → behind (c ∷ s) searched ≡ behind s searched
  unfolding strip
  behind-mark c s e = behind-none c s searched (ground (arith, e))

  pub behind-plain : (v s : String) → IsPlain v → behind (cat v s) searched ≡ behind s searched
  behind-plain [] s p = refl
  behind-plain (c ∷ v) s p = behind-mark c (cat v s) p.0 ∙ behind-plain v s p.1

  -- A closing quote.
  quote-other :
      (c : Char) (s : String)
      → is_letter c ≡ false
      → behind (quote ∷ c ∷ s) searched ≡ behind (c ∷ s) searched
  unfolding strip
  quote-other c s e = behind-none quote (c ∷ s) searched (ground (arith, letter, e))

  pub behind-quote : (s : String) → IsNext s → behind (quote ∷ s) searched ≡ behind s searched
  unfolding strip
  behind-quote [] h = behind-none quote [] searched refl
  behind-quote (c ∷ s) h = quote-other c s h.1

  -- A text between quotes that is not the key.
  pub behind-text :
      (v s : String)
      → IsPlain v
      → strip s (colon ∷ more) ≡ none
      → behind (quote ∷ cat v (quote ∷ s)) searched ≡ behind (quote ∷ s) searched
  unfolding strip
  behind-text v s p e =
      behind-none quote (cat v (quote ∷ s)) searched
        (strip-cat v (k ∷ key) s (colon ∷ more) p plain ∙ ground (arith, e))
      ∙ behind-plain v (quote ∷ s) p

  pub behind-name :
      (v s : String)
      → IsPlain v
      → same v (k ∷ key) ≡ false
      → behind (quote ∷ cat v (quote ∷ colon ∷ s)) searched ≡ behind s searched
  unfolding strip
  behind-name v s p e =
      behind-none quote (cat v (quote ∷ colon ∷ s)) searched
        (strip-cat v (k ∷ key) (colon ∷ s) (colon ∷ more) p plain ∙ ground (arith, e))
      ∙ behind-plain v (quote ∷ colon ∷ s) p
      ∙ quote-other colon s refl
      ∙ behind-mark colon s refl

  -- The key, between quotes and in front of a colon.
  pub behind-key :
      (v s rest : String)
      → IsPlain v
      → same v (k ∷ key) ≡ true
      → strip s more ≡ some rest
      → behind (quote ∷ cat v (quote ∷ colon ∷ s)) searched ≡ some rest
  unfolding strip
  behind-key v s rest p e h =
      behind-some quote (cat v (quote ∷ colon ∷ s)) searched rest
        (strip-cat v (k ∷ key) (colon ∷ s) (colon ∷ more) p plain ∙ ground (arith, e, h))

  -- The key in front of something else than what is searched for.
  pub behind-opened :
      (v s : String)
      → IsPlain v
      → strip s more ≡ none
      → behind (quote ∷ cat v (quote ∷ colon ∷ s)) searched ≡ behind s searched
  unfolding strip
  behind-opened v s p h =
      behind-none quote (cat v (quote ∷ colon ∷ s)) searched
        (strip-cat v (k ∷ key) (colon ∷ s) (colon ∷ more) p plain ∙ ground (arith, h))
      ∙ behind-plain v (quote ∷ colon ∷ s) p
      ∙ quote-other colon s refl
      ∙ behind-mark colon s refl
