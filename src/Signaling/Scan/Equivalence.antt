-- ===== src/Signaling/Scan/Equivalence.antt =====
-- signaling/signaling_message.cc: the two lambdas findQuotedValue and findIntValue read what the search
-- without positions reads.
use Prim.Native.String.{len, slice, find}
use text.Mathlib.Text.{find?}
use text.Mathlib.TextPositions.{slice-append_middle, slice-append_right, len-append}
use text.Mathlib.TextLemmas.{append_assoc}
use whl_air.Base.{
  ℕ, ◌+◌, ◌≤◌, String, ◌<>◌, ◌≡◌, refl, ap, sym, ◌∙◌, inl, inr, Option, none, some, arith,
}
use whl_air.Base.Int.{ℤ}
use whl_air.Stoi.{stoi}
use whl_air.Signaling.Deserialize.{find_from, find_quoted_value, find_end, find_int_value}
use whl_air.Signaling.Scan.{behind, before, is_quote, is_end, quoted_value, int_value}
use whl_air.Signaling.Scan.Positions.{IsSplit, behind_cases}
use whl_air.Signaling.Scan.Ends.{find?-found, find?-missing, quote_cases, end_cases, IsEarlier}

-- A text in which a token has been found.
module _ (text token front rest : String) (split : IsSplit text token front rest) where
  start : ℕ
  start = len front + len token

  text-append : text ≡ (front <> token) <> rest
  text-append = split.parts ∙ sym (append_assoc front token rest)

  start-len : len (front <> token) ≡ start
  unfolding start
  start-len = len-append front token

  text-len : len text ≡ start + len rest
  text-len =
      ap len text-append ∙ len-append (front <> token) rest ∙ ap (λ k. k + len rest) start-len

  found : find? text token ≡ some (len front)
  unfolding start
  found = let e = text-len in find?-found text token (len front) split.position (omega arith)

  slice-rest : slice text start (len text) ≡ rest
  slice-rest =
      let taken = slice-append_right (front <> token) rest in
      let e = text-append in let f = start-len in let g = text-len in cc

  -- A search that goes on behind the token searches the rest.
  find_from-rest :
      (t : String)
      → find_from text t start ≡ elim (find? rest t) [ none ↦ none | some at ↦ some (start + at) ]
  unfolding find_from
  find_from-rest t =
      ap (λ (o : Option ℕ). elim o [ none ↦ none | some at ↦ some (start + at) ])
        (ap (λ (w : String). find? w t) slice-rest)

  slice-value : (v behind : String) → rest ≡ v <> behind → slice text start (start + len v) ≡ v
  slice-value v behind e =
      let taken = slice-append_middle (front <> token) v behind in
      let f = text-append in
      let g = start-len in
      let h : text ≡ (front <> token) <> (v <> behind) =
        f ∙ ap (λ (w : String). (front <> token) <> w) e in
      cc

  -- What `findQuotedValue` does behind the token.
  until : Option ℕ → Option String
  until stop = elim stop [ none ↦ none | some stop ↦ some (slice text start stop) ]

  shift : Option ℕ → Option ℕ
  shift o = elim o [ none ↦ none | some at ↦ some (start + at) ]

  until-quote : until (find_from text "\"" start) ≡ before is_quote rest
  unfolding until shift
  until-quote = elim (quote_cases rest) [
    | inl (v, more, h, at) ↦
        ap until (find_from-rest "\"" ∙ ap shift (find?-found rest "\"" (len v) at h.bound))
        ∙ ap (λ (w : String). some w) (slice-value v more h.parts)
        ∙ sym h.before_some
    | inr (e, at) ↦ ap until (find_from-rest "\"" ∙ ap shift (find?-missing rest "\"" at)) ∙ sym e
  ]

  find_end-earlier :
      (n : ℕ)
      → n ≤ len rest
      → IsEarlier (find rest ",") (find rest "}") n
      → find_end text start ≡ some (start + n)
  unfolding find_end
  find_end-earlier n h first =
      let comma = find_from-rest "," in
      let brace = find_from-rest "}" in ground (arith, comma, brace, h, first)

  find_end-missing : find? rest "," ≡ none → find? rest "}" ≡ none → find_end text start ≡ none
  unfolding find_end
  find_end-missing e f =
      let comma = find_from-rest "," in
      let brace = find_from-rest "}" in ground (arith, comma, brace, e, f)

  until-end : until (find_end text start) ≡ before is_end rest
  unfolding until
  until-end = elim (end_cases rest) [
    | inl (v, more, h, first) ↦
        ap until (find_end-earlier (len v) h.bound first)
        ∙ ap (λ (w : String). some w) (slice-value v more h.parts)
        ∙ sym h.before_some
    | inr (e, a, b) ↦
        ap until (find_end-missing (find?-missing rest "," a) (find?-missing rest "}" b)) ∙ sym e
  ]

module _ (text key : String) where
  -- `findQuotedValue` from the position of the token on, and `quoted_value` from the rest on.
  from_token : String → Option ℕ → Option String
  from_token token at = elim at [
    | none ↦ none
    | some at ↦ elim (find_from text "\"" (at + len token)) [
      | none ↦ none
      | some stop ↦ some (slice text (at + len token) stop)
    ]
  ]

  from_rest : Option String → Option String
  from_rest rest = elim rest [ none ↦ none | some rest ↦ before is_quote rest ]

  pub find_quoted_value-quoted_value : find_quoted_value text key ≡ quoted_value text key
  unfolding find_quoted_value quoted_value from_token from_rest start until
  find_quoted_value-quoted_value =
      let token : String = "\"" <> key <> "\":\"" in
      elim (behind_cases text token) [
        | inl (front, rest, b, split) ↦
            ap (from_token token) (found text token front rest split)
            ∙ until-quote text token front rest split
            ∙ sym (ap from_rest b)
        | inr (b, off) ↦ ap (from_token token) (find?-missing text token off) ∙ sym (ap from_rest b)
      ]

  from_number : String → Option ℕ → Option ℤ
  from_number token at = elim at [
    | none ↦ none
    | some at ↦ elim (find_end text (at + len token)) [
      | none ↦ none
      | some stop ↦ stoi (slice text (at + len token) stop)
    ]
  ]

  read : Option String → Option ℤ
  read digits = elim digits [ none ↦ none | some digits ↦ stoi digits ]

  read-until :
      (from : ℕ) (stop : Option ℕ)
      → elim stop [ none ↦ none | some stop ↦ stoi (slice text from stop) ]
        ≡ read (elim stop [ none ↦ none | some stop ↦ some (slice text from stop) ])
  unfolding read
  read-until from none = refl
  read-until from (some stop) = refl

  number_rest : Option String → Option ℤ
  number_rest rest = elim rest [
    | none ↦ none
    | some rest ↦ elim (before is_end rest) [ none ↦ none | some digits ↦ stoi digits ]
  ]

  pub find_int_value-int_value : find_int_value text key ≡ int_value text key
  unfolding find_int_value int_value from_number number_rest read start until
  find_int_value-int_value =
      let token : String = "\"" <> key <> "\":" in
      elim (behind_cases text token) [
        | inl (front, rest, b, split) ↦
            ap (from_number token) (found text token front rest split)
            ∙ read-until (start text token front rest split)
                (find_end text (start text token front rest split))
            ∙ ap read (until-end text token front rest split)
            ∙ sym (ap number_rest b)
        | inr (b, off) ↦
            ap (from_number token) (find?-missing text token off) ∙ sym (ap number_rest b)
      ]

-- For every text and every key, the searches by positions are the ones without: findQuotedValue gives
-- what stands between the first occurrence of the key's token and the next quote, and findIntValue the
-- number between the first occurrence of its token and the next comma or brace. Where there is no such
-- token, end or number, they give nothing.
pub searches_agree :
    (text key : String)
    → (find_quoted_value text key ≡ quoted_value text key)
      × (find_int_value text key ≡ int_value text key)
searches_agree text key =
    (find_quoted_value-quoted_value text key, find_int_value-int_value text key)
