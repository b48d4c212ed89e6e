-- ===== src/Payment/Decimal/Digits.antt =====
-- Texts of digits: what they are read as, and how a sign and a point are found around them.
use credentials_issuer.Prelude.{
  ℕ, zero, suc, ◌+◌, ◌-◌, ◌*◌, ◌^◌, ◌≡◌, ◌≢◌, refl, sym, ap, ◌∙◌, Bool, true, false, [], ◌∷◌, ◌++◌,
  Str, length, All, arith,
}
use mathlib.Core.List.{append_assoc}
use native.Mathlib.Nat.{pow-suc}
use credentials_issuer.Payment.Decimal.{
  is_digit, digits_only, some_digits, digits_then_fraction, is_decimal, remove_minus, before_dot,
  after_dot, zeros, pad_end, digits_value, scaled, scaled_parts,
}

abbrev pub IsDigits : Str → Type 0
IsDigits = All (λ c. is_digit c ≡ true)

pub digits_value-append :
    (acc : ℕ) (s t : Str) → digits_value acc (s ++ t) ≡ digits_value (digits_value acc s) t
unfolding digits_value
digits_value-append acc [] t = refl
digits_value-append acc (c ∷ s) t = digits_value-append (acc * 10 + (c - 48)) s t

pub digits_value-zeros : (acc n : ℕ) → digits_value acc (zeros n) ≡ acc * 10 ^ n
unfolding digits_value
digits_value-zeros acc zero = omega arith
digits_value-zeros acc (suc n) =
    digits_value-zeros (acc * 10 + 0) n ∙ rw (pow-suc 10 n) (omega arith)

length-zeros : (n : ℕ) → length (zeros n) ≡ n
length-zeros zero = refl
length-zeros (suc n) = ap suc (length-zeros n)

-- Padding on the right multiplies by a power of ten.
pub digits_value-pad_end :
    (n : ℕ) (w f : Str)
    → digits_value 0 (w ++ pad_end n f) ≡ digits_value 0 (w ++ f) * 10 ^ (n - length f)
digits_value-pad_end n w f =
    ap (digits_value 0) (sym (append_assoc w f (zeros (n - length f))))
    ∙ digits_value-append 0 (w ++ f) (zeros (n - length f))
    ∙ digits_value-zeros (digits_value 0 (w ++ f)) (n - length f)

-- The amount with a sign, the digits before the point and those after it, if there are any.
abbrev pub point : Str → Str
point [] = []
point (c ∷ f) = b'.' ∷ c ∷ f

abbrev pub decimal_text : Bool → Str → Str → Str
decimal_text true whole fraction = b'-' ∷ (whole ++ point fraction)
decimal_text false whole fraction = whole ++ point fraction

digits_only-IsDigits : (s : Str) → IsDigits s → digits_only s ≡ true
unfolding digits_only
digits_only-IsDigits [] h = refl
digits_only-IsDigits (c ∷ s) (hc, h) = rw hc (digits_only-IsDigits s h)

digits_then_fraction-text :
    (w f : Str) → IsDigits w → IsDigits f → digits_then_fraction (w ++ point f) ≡ true
unfolding digits_then_fraction some_digits is_digit
digits_then_fraction-text [] [] hw hf = refl
digits_then_fraction-text [] (c ∷ f) hw (hc, hf) = ground (arith, digits_only-IsDigits f hf)
digits_then_fraction-text (c ∷ w) f (hc, hw) hf =
    ground (arith, digits_then_fraction-text w f hw hf)

pub is_decimal-text :
    (negative : Bool) (w f : Str)
    → w ≢ []
    → IsDigits w
    → IsDigits f
    → is_decimal (decimal_text negative w f) ≡ true
unfolding is_decimal is_digit
is_decimal-text negative [] f ne hw hf = absurd (ne refl)
is_decimal-text true (c ∷ w) f ne (hc, hw) hf = ground (arith, digits_then_fraction-text w f hw hf)
is_decimal-text false (c ∷ w) f ne (hc, hw) hf = ground (arith, digits_then_fraction-text w f hw hf)

remove_minus-IsDigits : (f : Str) → IsDigits f → remove_minus f ≡ f
unfolding remove_minus is_digit
remove_minus-IsDigits [] h = refl
remove_minus-IsDigits (c ∷ f) (hc, h) = ground (arith, remove_minus-IsDigits f h)

remove_minus-digits :
    (w f : Str) → IsDigits w → IsDigits f → remove_minus (w ++ point f) ≡ w ++ point f
unfolding remove_minus is_digit
remove_minus-digits [] [] hw hf = refl
remove_minus-digits [] (c ∷ f) hw (hc, hf) = ground (arith, remove_minus-IsDigits f hf)
remove_minus-digits (c ∷ w) f (hc, hw) hf = ground (arith, remove_minus-digits w f hw hf)

before_dot-digits : (f : Str) → IsDigits f → before_dot f ≡ f
unfolding before_dot is_digit
before_dot-digits [] h = refl
before_dot-digits (c ∷ f) (hc, h) = ground (arith, before_dot-digits f h)

before_dot-text : (w f : Str) → IsDigits w → before_dot (w ++ point f) ≡ w
unfolding before_dot is_digit
before_dot-text [] [] h = refl
before_dot-text [] (c ∷ f) h = refl
before_dot-text (c ∷ w) f (hc, h) = ground (arith, before_dot-text w f h)

after_dot-text : (w f : Str) → IsDigits w → IsDigits f → after_dot (w ++ point f) ≡ f
unfolding after_dot is_digit
after_dot-text [] [] hw hf = refl
after_dot-text [] (c ∷ f) hw hf = before_dot-digits (c ∷ f) hf
after_dot-text (c ∷ w) f (hc, hw) hf = ground (arith, after_dot-text w f hw hf)

-- What `scaled` makes of such a text.
pub scaled-text :
    (negative : Bool) (w f : Str)
    → w ≢ []
    → IsDigits w
    → IsDigits f
    → scaled (decimal_text negative w f) ≡ scaled_parts negative w f
unfolding scaled is_digit
scaled-text true w f ne hw hf =
    ground
      (arith, is_decimal-text true w f ne hw hf, before_dot-text w f hw, after_dot-text w f hw hf)
scaled-text false [] f ne hw hf = absurd (ne refl)
scaled-text false (c ∷ w) f ne (hc, hw) hf = ground (
  arith,
  is_decimal-text false (c ∷ w) f ne (hc, hw) hf,
  remove_minus-digits (c ∷ w) f (hc, hw) hf,
  before_dot-text (c ∷ w) f (hc, hw),
  after_dot-text (c ∷ w) f (hc, hw) hf,
)
