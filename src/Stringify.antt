-- ===== src/Stringify.antt =====
-- `JSON.stringify` of an object whose properties are strings, as the code units of the text. A
-- surrogate that has no partner is escaped, as are `"`, `\` and the control characters.
pub mod Injective
use credentials_issuer.Prelude.{
  ℕ, ◌+◌, ◌/◌, ◌%◌, Bool, true, false, not, ◌&&◌, ◌||◌, List, [], ◌∷◌, ◌++◌, Str, leb, ltb, ◌==◌,
  if◌then◌else◌,
}

pub hex_digit : ℕ → ℕ
hex_digit n = if ltb n 10 then 48 + n else 87 + n

pub is_high : ℕ → Bool
is_high c = leb 0xD800 c && ltb c 0xDC00

pub is_low : ℕ → Bool
is_low c = leb 0xDC00 c && ltb c 0xE000

unicode_escape : ℕ → Str
unicode_escape c =
    b'\\'
    ∷ b'u'
    ∷ hex_digit (c / 4096)
    ∷ hex_digit (c / 256 % 16)
    ∷ hex_digit (c / 16 % 16)
    ∷ hex_digit (c % 16)
    ∷ []

-- A code unit in a quoted text; `paired` says that it is one half of a surrogate pair.
escape_unit : Bool → ℕ → Str
escape_unit paired c =
    if c == 34
    then 92 ∷ 34 ∷ []
    else if c == 92
    then 92 ∷ 92 ∷ []
    else if c == 8
    then 92 ∷ b'b' ∷ []
    else if c == 9
    then 92 ∷ b't' ∷ []
    else if c == 10
    then 92 ∷ b'n' ∷ []
    else if c == 12
    then 92 ∷ b'f' ∷ []
    else if c == 13
    then 92 ∷ b'r' ∷ []
    else if ltb c 32
    then unicode_escape c
    else if (is_high c || is_low c) && not paired
    then unicode_escape c
    else c ∷ []

starts_low : Str → Bool
starts_low [] = false
starts_low (c ∷ s) = is_low c

-- The unit begins a surrogate pair, where `second` says that it is the second half of one.
begins_pair : Bool → ℕ → Str → Bool
begins_pair second c s = not second && is_high c && starts_low s

escape_from : Bool → Str → Str
escape_from second [] = []
escape_from second (c ∷ s) =
    escape_unit (second || begins_pair second c s) c ++ escape_from (begins_pair second c s) s

pub quote : Str → Str
unfolding begins_pair escape_from escape_unit unicode_escape starts_low hex_digit is_high is_low
quote s = 34 ∷ (escape_from false s ++ (34 ∷ []))

-- `"key":"value"`, the properties separated by commas.
properties : List (Str × Str) → Str
properties [] = []
properties ((k, v) ∷ []) = quote k ++ (b':' ∷ quote v)
properties ((k, v) ∷ more) = quote k ++ (b':' ∷ (quote v ++ (b',' ∷ properties more)))

pub stringify : List (Str × Str) → Str
unfolding quote properties
stringify fields = b'{' ∷ (properties fields ++ (b'}' ∷ []))
