-- ===== src/Signaling/Numbers.antt =====
-- The numbers in signaling messages: std::to_string as SerializeSignalMessage uses it, and std::stoi
-- as DeserializeSignalMessage does.
use Prim.Native.Nat.{◌/◌, ◌%◌}
use Prim.Native.Char.{Char, code}
use Prim.Native.String.{[], ◌∷◌}
use Prim.Native.String.append
use whl_air.Base.{
  ℕ, zero, suc, ◌+◌, ◌*◌, ◌-◌, ◌<◌, String, ◌<>◌, ◌≡◌, refl, ap, sym, subst⁻¹, ◌∙◌, Bool, true,
  false, some, ltb, arith, if◌then◌else◌,
}
use mathlib.Core.Path.{subst}
use whl_air.Base.Int.{ℤ, pos, negsuc}
use whl_air.Stoi.{stoi, digits, skip_spaces, magnitude, plus, minus, signed, is_digit}
use whl_air.Signaling.Pieces.{IsNumberText}
use whl_air.Signaling.Serialize.{digit, decimal, to_string}

abbrev AllDigits : String → Type 0
AllDigits [] = Unit
AllDigits (c ∷ s) = (is_digit c ≡ true) × AllDigits s

-- Digits, one at least, and their value.
abbrev IsNumeral : ℕ → String → Type 0
IsNumeral n [] = ⊥
IsNumeral n (c ∷ s) = AllDigits (c ∷ s) × (digits 0 (c ∷ s) ≡ n)

digits-append :
    (acc : ℕ) (s t : String) → AllDigits s → digits acc (s <> t) ≡ digits (digits acc s) t
unfolding digits
digits-append acc [] t all = ap (digits acc) (append.nil t)
digits-append acc (c ∷ s) t all =
    ap (digits acc) (append.cons c s t)
    ∙ ground (arith, all.0, digits-append (acc * 10 + (code c - 48)) s t all.1)

AllDigits-append : (s t : String) → AllDigits s → AllDigits t → AllDigits (s <> t)
AllDigits-append [] t a b = subst⁻¹ AllDigits (append.nil t) b
AllDigits-append (c ∷ s) t a b =
    subst⁻¹ AllDigits (append.cons c s t) (a.0, AllDigits-append s t a.1 b)

abbrev IsDigit : ℕ → String → Type 0
IsDigit n [] = ⊥
IsDigit n (c ∷ s) = (is_digit c ≡ true) × (s ≡ []) × (code c - 48 ≡ n)

digit-IsDigit : (n : ℕ) → n < 10 → IsDigit n (digit n)
unfolding digit
digit-IsDigit zero h = (refl, refl, refl)
digit-IsDigit (suc zero) h = (refl, refl, refl)
digit-IsDigit (suc (suc zero)) h = (refl, refl, refl)
digit-IsDigit (suc (suc (suc zero))) h = (refl, refl, refl)
digit-IsDigit (suc (suc (suc (suc zero)))) h = (refl, refl, refl)
digit-IsDigit (suc (suc (suc (suc (suc zero))))) h = (refl, refl, refl)
digit-IsDigit (suc (suc (suc (suc (suc (suc zero)))))) h = (refl, refl, refl)
digit-IsDigit (suc (suc (suc (suc (suc (suc (suc zero))))))) h = (refl, refl, refl)
digit-IsDigit (suc (suc (suc (suc (suc (suc (suc (suc zero)))))))) h = (refl, refl, refl)
digit-IsDigit (suc (suc (suc (suc (suc (suc (suc (suc (suc zero))))))))) h = (refl, refl, refl)
digit-IsDigit (suc (suc (suc (suc (suc (suc (suc (suc (suc (suc n)))))))))) h = ground arith

digits-digit : (acc k : ℕ) (t : String) → IsDigit k t → digits acc t ≡ acc * 10 + k
unfolding digits
digits-digit acc k [] h = elim h [ ]
digits-digit acc k (c ∷ t) (is, e, v) =
    ground (arith, is, v, ap (digits (acc * 10 + (code c - 48))) e)

AllDigits-digit : (k : ℕ) (t : String) → IsDigit k t → AllDigits t
AllDigits-digit k [] h = elim h [ ]
AllDigits-digit k (c ∷ t) (is, e, v) = (is, subst⁻¹ AllDigits e tt)

IsNumeral-digit : (k : ℕ) (t : String) → IsDigit k t → IsNumeral k t
IsNumeral-digit k [] h = elim h [ ]
IsNumeral-digit k (c ∷ t) h =
    (AllDigits-digit k (c ∷ t) h, digits-digit 0 k (c ∷ t) h ∙ omega arith)

IsNumeral-append :
    (m k : ℕ) (s t : String) → IsNumeral m s → IsDigit k t → IsNumeral (m * 10 + k) (s <> t)
IsNumeral-append m k [] t a b = elim a [ ]
IsNumeral-append m k (c ∷ s) t (all, value) b =
    let appended = AllDigits-append (c ∷ s) t all (AllDigits-digit k t b) in
    let valued =
      digits-append 0 (c ∷ s) t all ∙ ap (λ acc. digits acc t) value ∙ digits-digit m k t b in
    subst⁻¹ (IsNumeral (m * 10 + k)) (append.cons c s t) (
      subst AllDigits (append.cons c s t) appended,
      sym (ap (digits 0) (append.cons c s t)) ∙ valued,
    )

tens : ℕ → ℕ
tens zero = 1
tens (suc fuel) = 10 * tens fuel

-- The two ways to write a number, for the digits `rest` of its tenth.
chosen-IsNumeral :
    (n : ℕ) (rest : String) (small : Bool)
    → ltb n 10 ≡ small
    → (small ≡ false → IsNumeral (n / 10) rest)
    → IsNumeral n (if small then digit n else rest <> digit (n % 10))
chosen-IsNumeral n rest true e h = IsNumeral-digit n (digit n) (digit-IsDigit n (ground arith))
chosen-IsNumeral n rest false e h =
    subst (λ m. IsNumeral m (rest <> digit (n % 10))) (omega arith)
      (IsNumeral-append (n / 10) (n % 10) rest (digit (n % 10)) (h refl)
        (digit-IsDigit (n % 10) (omega arith)))

decimal-IsNumeral : (fuel n : ℕ) → n < tens (suc fuel) → IsNumeral n (decimal (suc fuel) n)
unfolding decimal tens
decimal-IsNumeral zero n h = chosen-IsNumeral n "" (ltb n 10) refl (λ e. ground arith)
decimal-IsNumeral (suc fuel) n h =
    chosen-IsNumeral n (decimal (suc fuel) (n / 10)) (ltb n 10) refl
      (λ e. decimal-IsNumeral fuel (n / 10) (omega arith))

-- The ints of 32 bits.
abbrev pub IsInt : ℤ → Type 0
IsInt (pos n) = n < 2147483648
IsInt (negsuc n) = n < 2147483648

-- What `signed` makes of digits.
magnitude-IsNumeral : (n : ℕ) (s : String) → IsNumeral n s → magnitude s ≡ some n
unfolding magnitude
magnitude-IsNumeral n [] h = elim h [ ]
magnitude-IsNumeral n (c ∷ s) (all, value) = ground (arith, all.0, value)

abbrev minus_sign : Char
minus_sign = "-"

stoi-pos : (n : ℕ) (s : String) → IsNumeral n s → stoi s ≡ plus (some n)
unfolding stoi skip_spaces signed magnitude
stoi-pos n [] h = elim h [ ]
stoi-pos n (c ∷ s) (all, value) = ground (arith, all.0, value)

signed_minus : (s : String) → stoi (minus_sign ∷ s) ≡ minus (magnitude s)
unfolding stoi skip_spaces signed
signed_minus s = refl

stoi-neg : (n : ℕ) (s : String) → IsNumeral n s → stoi ("-" <> s) ≡ minus (some n)
stoi-neg n s h =
    ap stoi (append.cons minus_sign "" s ∙ ap (λ (t : String). minus_sign ∷ t) (append.nil s))
    ∙ signed_minus s
    ∙ ap minus (magnitude-IsNumeral n s h)

plus-some : (n : ℕ) → n < 2147483648 → plus (some n) ≡ some (pos n)
unfolding plus
plus-some n h = ground arith

minus-some : (n : ℕ) → n < 2147483648 → minus (some (suc n)) ≡ some (negsuc n)
unfolding minus
minus-some n h = ground arith

to_string-pos : (n : ℕ) → to_string (pos n) ≡ decimal 10 n
unfolding to_string
to_string-pos n = refl

to_string-negsuc : (n : ℕ) → to_string (negsuc n) ≡ "-" <> decimal 10 (suc n)
unfolding to_string
to_string-negsuc n = refl

ten_digits : (n : ℕ) → n < 10000000000 → IsNumeral n (decimal 10 n)
unfolding tens
ten_digits n h = decimal-IsNumeral 9 n h

-- std::stoi reads back what std::to_string writes, for every int of 32 bits.
pub stoi-to_string : (n : ℤ) → IsInt n → stoi (to_string n) ≡ some n
stoi-to_string (pos n) h =
    ap stoi (to_string-pos n)
    ∙ stoi-pos n (decimal 10 n) (ten_digits n (omega arith))
    ∙ plus-some n h
stoi-to_string (negsuc n) h =
    ap stoi (to_string-negsuc n)
    ∙ stoi-neg (suc n) (decimal 10 (suc n)) (ten_digits (suc n) (omega arith))
    ∙ minus-some n h

AllDigits-IsNumberText : (s : String) → AllDigits s → IsNumberText s
AllDigits-IsNumberText [] all = tt
AllDigits-IsNumberText (c ∷ s) all =
    (ground (arith, all.0), ground (arith, all.0), AllDigits-IsNumberText s all.1)

IsNumeral-IsNumberText : (n : ℕ) (s : String) → IsNumeral n s → IsNumberText s
IsNumeral-IsNumberText n [] h = elim h [ ]
IsNumeral-IsNumberText n (c ∷ s) h = AllDigits-IsNumberText (c ∷ s) h.0

-- No number has a quote, a comma or a brace.
pub to_string-IsNumberText : (n : ℤ) → IsInt n → IsNumberText (to_string n)
to_string-IsNumberText (pos n) h =
    subst⁻¹ IsNumberText (to_string-pos n)
      (IsNumeral-IsNumberText n (decimal 10 n) (ten_digits n (omega arith)))
to_string-IsNumberText (negsuc n) h =
    let digits =
      IsNumeral-IsNumberText (suc n) (decimal 10 (suc n)) (ten_digits (suc n) (omega arith)) in
    subst⁻¹ IsNumberText
      (to_string-negsuc n
        ∙ append.cons minus_sign "" (decimal 10 (suc n))
        ∙ ap (λ (t : String). minus_sign ∷ t) (append.nil (decimal 10 (suc n))))
      (refl, refl, digits)
