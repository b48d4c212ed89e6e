-- ===== src/Errors/Base64.antt =====
-- errors/base64.ts. `Buffer.from(_, 'base64')` and `toString('base64')` are written out: the first
-- stops at a `=`, drops every other character outside the alphabets, and drops an odd last digit.
pub mod Canonical
use credentials_issuer.Prelude.{
  ℕ, ◌+◌, ◌-◌, ◌*◌, ◌/◌, ◌%◌, Bool, true, false, ◌&&◌, ◌||◌, Option, none, some, List, [], ◌∷◌, Str,
  length, leb, ltb, ◌==◌, ◌===◌, if◌then◌else◌,
}
use credentials_issuer.Prelude.Json.{Json, str}

abbrev pub Bytes : Type 0
Bytes = List ℕ

-- The character of a six-bit digit.
unfoldable pub symbol : ℕ → ℕ
symbol v =
    if ltb v 26
    then 65 + v
    else if ltb v 52
    then 71 + v
    else if ltb v 62
    then v - 4
    else if v == 62
    then b'+'
    else b'/'

-- The six-bit digit of a character, in either alphabet.
pub digit : ℕ → Option ℕ
digit c =
    if leb b'A' c && leb c b'Z'
    then some (c - 65)
    else if leb b'a' c && leb c b'z'
    then some (c - 71)
    else if leb b'0' c && leb c b'9'
    then some (c + 4)
    else if c == b'+' || c == b'-'
    then some 62
    else if c == b'/' || c == b'_'
    then some 63
    else none

-- `[A-Za-z0-9+/]`.
pub is_symbol : ℕ → Bool
is_symbol c =
    (leb b'A' c && leb c b'Z')
    || (leb b'a' c && leb c b'z')
    || (leb b'0' c && leb c b'9')
    || c == b'+'
    || c == b'/'

unfoldable pub to_base64 : Bytes → Str
unfolding symbol
to_base64 [] = []
to_base64 (a ∷ []) = symbol (a / 4) ∷ symbol (a % 4 * 16) ∷ b'=' ∷ b'=' ∷ []
to_base64 (a ∷ b ∷ []) =
    symbol (a / 4) ∷ symbol (a % 4 * 16 + b / 16) ∷ symbol (b % 16 * 4) ∷ b'=' ∷ []
to_base64 (a ∷ b ∷ c ∷ rest) =
    symbol (a / 4)
    ∷ symbol (a % 4 * 16 + b / 16)
    ∷ symbol (b % 16 * 4 + c / 64)
    ∷ symbol (c % 64)
    ∷ to_base64 rest

digits_of : Str → List ℕ
digits_of [] = []
digits_of (c ∷ s) =
    let rest = digits_of s in
    if c == b'=' then [] else elim (digit c) [ none ↦ rest | some v ↦ v ∷ rest ]

pack : List ℕ → Bytes
pack (x ∷ y ∷ z ∷ w ∷ rest) =
    (x * 4 + y / 16) ∷ (y % 16 * 16 + z / 4) ∷ (z % 4 * 64 + w) ∷ pack rest
pack (x ∷ y ∷ z ∷ []) = (x * 4 + y / 16) ∷ (y % 16 * 16 + z / 4) ∷ []
pack (x ∷ y ∷ []) = (x * 4 + y / 16) ∷ []
pack _ = []

unfoldable pub from_base64 : Str → Bytes
unfolding digits_of pack digit
from_base64 s = pack (digits_of s)

-- `={0,2}$`
is_padding : Str → Bool
is_padding [] = true
is_padding (a ∷ []) = a == b'='
is_padding (a ∷ b ∷ []) = a == b'=' && b == b'='
is_padding _ = false

-- `[A-Za-z0-9+/]*={0,2}$`
symbols_then_padding : Str → Bool
symbols_then_padding [] = true
symbols_then_padding (c ∷ s) =
    let rest = symbols_then_padding s in if is_symbol c then rest else is_padding (c ∷ s)

matches_base64 : Str → Bool
matches_base64 [] = false
matches_base64 (c ∷ s) = is_symbol c && symbols_then_padding s

strict : Str → Option Bytes
strict s =
    if length s == 0 || (if length s % 4 == 0 then false else true)
    then none
    else if matches_base64 s
    then (if to_base64 (from_base64 s) === s then some (from_base64 s) else none)
    else none

unfoldable pub decode_strict_base64 : Json → Option Bytes
unfolding strict matches_base64 symbols_then_padding is_padding is_symbol from_base64 to_base64
    ◌===◌
decode_strict_base64 (str s) = strict s
decode_strict_base64 _ = none
