-- ===== src/Payment/Decimal.antt =====
-- payment/decimal.ts: exact comparison of decimal amounts. A `bigint` is an integer.
pub mod Digits
pub mod Values
use credentials_issuer.Prelude.{
  ℕ, zero, suc, ◌+◌, ◌-◌, ◌*◌, Bool, true, false, ◌&&◌, Option, none, some, List, [], ◌∷◌, ◌++◌,
  Str, length, leb, ltb, ◌==◌, if◌then◌else◌,
}
use credentials_issuer.Prelude.Int.{ℤ, pos, negsuc}

unfoldable pub is_digit : ℕ → Bool
is_digit c = leb b'0' c && leb c b'9'

-- `\d*$`, and `\d+$`.
digits_only : Str → Bool
digits_only [] = true
digits_only (c ∷ s) = is_digit c && digits_only s

some_digits : Str → Bool
some_digits [] = false
some_digits (c ∷ s) = is_digit c && digits_only s

-- `\d*(\.\d+)?$`
digits_then_fraction : Str → Bool
digits_then_fraction [] = true
digits_then_fraction (c ∷ s) =
    let rest = digits_then_fraction s in
    if is_digit c then rest else if c == b'.' then some_digits s else false

unsigned_decimal : Str → Bool
unsigned_decimal [] = false
unsigned_decimal (c ∷ s) = is_digit c && digits_then_fraction s

-- `DECIMAL.test(value)`
unfoldable pub is_decimal : Str → Bool
unfolding is_digit digits_only some_digits digits_then_fraction unsigned_decimal
is_decimal [] = false
is_decimal (c ∷ s) = if c == b'-' then unsigned_decimal s else unsigned_decimal (c ∷ s)

-- `value.startsWith('-')`
starts_minus : Str → Bool
starts_minus [] = false
starts_minus (c ∷ s) = c == b'-'

-- `value.replace('-', '')`: the first one only.
remove_minus : Str → Str
remove_minus [] = []
remove_minus (c ∷ s) = let rest = remove_minus s in if c == b'-' then s else c ∷ rest

-- The first two parts of `split('.')`, the second one empty where there is none.
before_dot : Str → Str
before_dot [] = []
before_dot (c ∷ s) = let rest = before_dot s in if c == b'.' then [] else c ∷ rest

after_dot : Str → Str
after_dot [] = []
after_dot (c ∷ s) = let rest = after_dot s in if c == b'.' then before_dot s else rest

abbrev zeros : ℕ → Str
zeros zero = []
zeros (suc n) = b'0' ∷ zeros n

-- `fraction.padEnd(18, '0')`
abbrev pad_end : ℕ → Str → Str
pad_end n s = s ++ zeros (n - length s)

-- `BigInt` of a text of digits.
unfoldable pub digits_value : ℕ → Str → ℕ
digits_value acc [] = acc
digits_value acc (c ∷ s) = digits_value (acc * 10 + (c - b'0')) s

abbrev pub signed : Bool → ℕ → ℤ
signed true zero = pos 0
signed true (suc n) = negsuc n
signed false n = pos n

unfoldable pub scaled_parts : Bool → Str → Str → Option ℤ
scaled_parts negative whole fraction =
    if ltb 18 (length fraction)
    then none
    else some (signed negative (digits_value 0 (whole ++ pad_end 18 fraction)))

unfoldable pub scaled : Str → Option ℤ
unfolding starts_minus remove_minus before_dot after_dot
scaled value =
    if is_decimal value
    then scaled_parts (starts_minus value) (before_dot (remove_minus value))
        (after_dot (remove_minus value))
    else none

abbrev same_integer : ℤ → ℤ → Bool
same_integer (pos a) (pos b) = a == b
same_integer (negsuc a) (negsuc b) = a == b
same_integer _ _ = false

abbrev both_equal : Option ℤ → Option ℤ → Bool
both_equal (some a) (some b) = same_integer a b
both_equal _ _ = false

unfoldable pub decimal_equals : Str → Str → Bool
decimal_equals left right = both_equal (scaled left) (scaled right)
