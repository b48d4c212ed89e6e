-- ===== src/Payment/Decimal/Values.antt =====
-- `decimalEquals` compares the amounts that the two texts denote.
use credentials_issuer.Prelude.{
  ℕ, zero, suc, ◌+◌, ◌-◌, ◌*◌, ◌^◌, ◌≤◌, ◌<◌, ◌≡◌, ◌≢◌, ◌↔◌, ◌⊎◌, sym, ap, ap₂, ◌∙◌, Bool, true,
  false, [], ◌++◌, Str, length, arith, some,
}
use native.Mathlib.Nat.{pow-suc, zero-add, suc-add}
use credentials_issuer.Payment.Decimal.{
  digits_value, signed, same_integer, scaled, scaled_parts, both_equal, decimal_equals, is_decimal,
}
use credentials_issuer.Payment.Decimal.Digits.{
  IsDigits, decimal_text, scaled-text, is_decimal-text, digits_value-pad_end,
}

pow_add : (a b : ℕ) → 10 ^ (a + b) ≡ 10 ^ a * 10 ^ b
pow_add zero b = rw (zero-add b) (omega arith)
pow_add (suc a) b =
    ap (λ (n : ℕ). 10 ^ n) (suc-add a b)
    ∙ pow-suc 10 (a + b)
    ∙ rw (pow_add a b, pow-suc 10 a) (omega arith)

pow_pos : (a : ℕ) → 0 < 10 ^ a
pow_pos zero = omega arith
pow_pos (suc a) = rw (pow-suc 10 a) (omega (arith, pow_pos a))

-- The sign and the magnitude, where zero has no sign.
abbrev pub SameSigned : Bool → ℕ → Bool → ℕ → Type 0
SameSigned n x m y = ((n ≡ m) × (x ≡ y)) ⊎ ((x ≡ 0) × (y ≡ 0))

same_integer-signed :
    (n m : Bool) (x y : ℕ) → (same_integer (signed n x) (signed m y) ≡ true) ↔ SameSigned n x m y
same_integer-signed true true zero zero = ground arith
same_integer-signed true true zero (suc y) = ground arith
same_integer-signed true true (suc x) zero = ground arith
same_integer-signed true true (suc x) (suc y) = ground arith
same_integer-signed true false zero y = ground arith
same_integer-signed true false (suc x) y = ground arith
same_integer-signed false true x zero = ground arith
same_integer-signed false true x (suc y) = ground arith
same_integer-signed false false x y = ground arith

cancel : (x y k : ℕ) → 0 < k → x * k ≡ y * k → x ≡ y
cancel x y k h e = grind arith

mul_pos : (x y : ℕ) → 0 < x → 0 < y → 0 < x * y
mul_pos x y hx hy = grind arith

-- Two ways to bring two numbers to a common scale.
rescale :
    (x y p q u v : ℕ) → 0 < p * u → 0 < u * v → p * u ≡ q * v → (x * p ≡ y * q) ↔ (x * v ≡ y * u)
rescale x y p q u v hp hu k = (
  λ h.
      cancel (x * v) (y * u) (p * u) hp
        (omega (arith, ap (λ (t : ℕ). t * (u * v)) h, ap (λ (t : ℕ). y * u * t) k)),
  λ h.
      cancel (x * p) (y * q) (u * v) hu
        (omega (arith, ap (λ (t : ℕ). t * (p * u)) h, ap (λ (t : ℕ). y * u * t) k)),
)

pow_complement : (a : ℕ) → a ≤ 18 → 10 ^ (18 - a) * 10 ^ a ≡ 10 ^ 18
pow_complement a h = sym (pow_add (18 - a) a) ∙ ap (λ (n : ℕ). 10 ^ n) {y = 18} (omega arith)

-- Scaling to eighteen places and multiplying crosswise agree.
crosswise :
    (x y a b : ℕ)
    → a ≤ 18
    → b ≤ 18
    → (x * 10 ^ (18 - a) ≡ y * 10 ^ (18 - b)) ↔ (x * 10 ^ b ≡ y * 10 ^ a)
crosswise x y a b ha hb =
    rescale x y (10 ^ (18 - a)) (10 ^ (18 - b)) (10 ^ a) (10 ^ b)
      (mul_pos (10 ^ (18 - a)) (10 ^ a) (pow_pos (18 - a)) (pow_pos a))
      (mul_pos (10 ^ a) (10 ^ b) (pow_pos a) (pow_pos b))
      (pow_complement a ha ∙ sym (pow_complement b hb))

zero_scaled : (x k : ℕ) → 0 < k → (x * k ≡ 0) ↔ (x ≡ 0)
zero_scaled x k h = (λ e. cancel x 0 k h (omega (arith, e)), λ e. rw e (omega arith))

-- The digits of an amount, read as one number.
abbrev pub numerator : Str → Str → ℕ
numerator whole fraction = digits_value 0 (whole ++ fraction)

SameSigned-crosswise :
    (n m : Bool) (x y a b : ℕ)
    → a ≤ 18
    → b ≤ 18
    → SameSigned n (x * 10 ^ (18 - a)) m (y * 10 ^ (18 - b))
      ↔ SameSigned n (x * 10 ^ b) m (y * 10 ^ a)
SameSigned-crosswise n m x y a b ha hb = ground (
  arith,
  crosswise x y a b ha hb,
  zero_scaled x (10 ^ (18 - a)) (pow_pos (18 - a)),
  zero_scaled y (10 ^ (18 - b)) (pow_pos (18 - b)),
  zero_scaled x (10 ^ b) (pow_pos b),
  zero_scaled y (10 ^ a) (pow_pos a),
)

scaled_value :
    (negative : Bool) (w f : Str)
    → w ≢ []
    → IsDigits w
    → IsDigits f
    → length f ≤ 18
    → scaled (decimal_text negative w f)
      ≡ some (signed negative (numerator w f * 10 ^ (18 - length f)))
scaled_value negative w f ne hw hf short =
    scaled-text negative w f ne hw hf
    ∙ unfold scaled_parts in ground (arith, digits_value-pad_end 18 w f)

-- Two decimal amounts of at most eighteen places compare equal exactly if they denote the same
-- number: the digits agree when each is multiplied by the other's power of ten, and the signs agree
-- unless both amounts are zero.
pub decimal_equals_iff :
    (n m : Bool) (w f v g : Str)
    → w ≢ []
    → v ≢ []
    → IsDigits w
    → IsDigits f
    → IsDigits v
    → IsDigits g
    → length f ≤ 18
    → length g ≤ 18
    → (decimal_equals (decimal_text n w f) (decimal_text m v g) ≡ true)
      ↔ SameSigned n (numerator w f * 10 ^ length g) m (numerator v g * 10 ^ length f)
unfolding decimal_equals
decimal_equals_iff n m w f v g nw nv hw hf hv hg sf sg =
    let compared =
      ap₂ both_equal (scaled_value n w f nw hw hf sf) (scaled_value m v g nv hv hg sg) in
    let (sound, complete) =
      same_integer-signed n m (numerator w f * 10 ^ (18 - length f))
        (numerator v g * 10 ^ (18 - length g)) in
    let (to, from) =
      SameSigned-crosswise n m (numerator w f) (numerator v g) (length f) (length g) sf sg in
    (λ h. to (sound (sym compared ∙ h)), λ h. compared ∙ complete (from h))

-- An amount of more than eighteen places, though it is a decimal, compares equal to nothing, not
-- even to itself.
pub decimal_equals_excess :
    (negative : Bool) (w f other : Str)
    → w ≢ []
    → IsDigits w
    → IsDigits f
    → 18 < length f
    → (is_decimal (decimal_text negative w f) ≡ true)
      × (decimal_equals (decimal_text negative w f) other ≡ false)
unfolding decimal_equals scaled_parts
decimal_equals_excess negative w f other ne hw hf long =
    (is_decimal-text negative w f ne hw hf, ground (arith, scaled-text negative w f ne hw hf))
