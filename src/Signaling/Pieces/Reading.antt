-- ===== src/Signaling/Pieces/Reading.antt =====
-- What the lambdas findQuotedValue and findIntValue of signaling/signaling_message.cc read in the text
-- of pieces.
use Prim.Native.Char.{Char}
use Prim.Native.String.{[], ◌∷◌}
use Prim.Native.String.append
use whl_air.Base.{String, ◌<>◌, ◌≡◌, ap, sym, ◌∙◌, true}
use whl_air.Signaling.Deserialize.{find_quoted_value, find_int_value}
use whl_air.Signaling.Scan.{behind, quoted_value, int_value}
use whl_air.Signaling.Scan.Equivalence.{find_quoted_value-quoted_value, find_int_value-int_value}
use whl_air.Signaling.Pieces.{
  Pieces, quote, cat, render, lookup, lookup_number, or_else, IsPlain, is_letter, IsLaidOut,
  NamesNoNumber, NamesNoText,
}
use whl_air.Signaling.Pieces.Search.{token}
use whl_air.Signaling.Pieces.Lookup.{read, read-render, read_number, read_number-render}

pub append-cat : (s t : String) → s <> t ≡ cat s t
append-cat [] t = append.nil t
append-cat (c ∷ s) t = append.cons c s t ∙ ap (λ (w : String). c ∷ w) (append-cat s t)

token-append : (key more : String) → "\"" <> (key <> ("\":" <> more)) ≡ token key more
token-append key more =
    append-cat "\"" (key <> ("\":" <> more))
    ∙ ap (λ (w : String). quote ∷ w)
        (append-cat key ("\":" <> more) ∙ ap (cat key) (append-cat "\":" more))

module _ (k : Char) (key : String) (ps : Pieces) (tail : String) where
  -- `findQuotedValue` in the text of pieces gives the first text of that name, and what it gives in
  -- the tail if there is none.
  pub find_quoted_value-render :
      is_letter k ≡ true
      → IsPlain (k ∷ key)
      → IsLaidOut ps tail
      → NamesNoNumber (k ∷ key) ps
      → find_quoted_value (render ps tail) (k ∷ key)
        ≡ or_else (lookup (k ∷ key) ps) (find_quoted_value tail (k ∷ key))
  unfolding quoted_value
  find_quoted_value-render l p h n =
      let told = token-append (k ∷ key) "\"" in
      find_quoted_value-quoted_value (render ps tail) (k ∷ key)
      ∙ ap (λ (w : String). read (behind (render ps tail) w)) told
      ∙ read-render k key ps tail l p h n
      ∙ sym (ap (λ (w : String). or_else (lookup (k ∷ key) ps) (read (behind tail w))) told)
      ∙ sym (ap (or_else (lookup (k ∷ key) ps)) (find_quoted_value-quoted_value tail (k ∷ key)))

  -- The same of `findIntValue`.
  pub find_int_value-render :
      is_letter k ≡ true
      → IsPlain (k ∷ key)
      → IsLaidOut ps tail
      → NamesNoText (k ∷ key) ps
      → find_int_value (render ps tail) (k ∷ key)
        ≡ or_else (lookup_number (k ∷ key) ps) (find_int_value tail (k ∷ key))
  unfolding int_value
  find_int_value-render l p h n =
      let told = token-append (k ∷ key) "" in
      find_int_value-int_value (render ps tail) (k ∷ key)
      ∙ ap (λ (w : String). read_number (behind (render ps tail) w)) told
      ∙ read_number-render k key ps tail l p h n
      ∙ sym (
          ap (λ (w : String). or_else (lookup_number (k ∷ key) ps) (read_number (behind tail w)))
            told)
      ∙ sym (ap (or_else (lookup_number (k ∷ key) ps)) (find_int_value-int_value tail (k ∷ key)))
