-- ===== src/Errors/Base64/Canonical.antt =====
-- The strict decoder accepts the canonical encodings of non-empty byte strings, and nothing else.
pub mod Url
use credentials_issuer.Prelude.{
  ℕ, ◌+◌, ◌*◌, ◌/◌, ◌%◌, ◌<◌, ◌≡◌, ◌≢◌, ◌↔◌, inl, inr, refl, sym, ap, ◌∙◌, subst, true, false, some,
  List, [], ◌∷◌, Str, arith, length, All, ◌==◌, eq-text, eq-text_refl, Option-cases,
}
use credentials_issuer.Prelude.Json.{Json, str}
use credentials_issuer.Errors.Base64.{
  Bytes, symbol, digit, is_symbol, to_base64, from_base64, digits_of, pack, is_padding,
  symbols_then_padding, matches_base64, strict, decode_strict_base64,
}

abbrev pub IsBytes : Bytes → Type 0
IsBytes = All (λ b. b < 256)

digit-symbol : (v : ℕ) → v < 64 → digit (symbol v) ≡ some v
unfolding digit symbol
digit-symbol v h = ground arith

symbol-ne-pad : (v : ℕ) → v < 64 → (symbol v == b'=') ≡ false
unfolding symbol
symbol-ne-pad v h = ground arith

is_symbol-symbol : (v : ℕ) → v < 64 → is_symbol (symbol v) ≡ true
unfolding is_symbol symbol
is_symbol-symbol v h = ground arith

digits_of-symbol : (v : ℕ) (s : Str) → v < 64 → digits_of (symbol v ∷ s) ≡ v ∷ digits_of s
unfolding digits_of
digits_of-symbol v s h = ground (arith, digit-symbol v, symbol-ne-pad v)

digit-lt : (c v : ℕ) → digit c ≡ some v → v < 64
unfolding digit
digit-lt c v h = ground arith

digits_of-lt : (s : Str) → All (λ d. d < 64) (digits_of s)
unfolding digits_of
digits_of-lt [] = tt
digits_of-lt (c ∷ s) = elim (Option-cases (digit c)) [
  | inl missing ↦ ground (arith, digits_of-lt s)
  | inr (v, found) ↦ ground (arith, digits_of-lt s, digit-lt c v)
]

pack-IsBytes : (ds : List ℕ) → All (λ d. d < 64) ds → IsBytes (pack ds)
unfolding pack
pack-IsBytes (x ∷ y ∷ z ∷ w ∷ rest) (hx, (hy, (hz, (hw, h)))) =
    (omega arith, (omega arith, (omega arith, pack-IsBytes rest h)))
pack-IsBytes (x ∷ y ∷ z ∷ []) h = omega arith
pack-IsBytes (x ∷ y ∷ []) h = omega arith
pack-IsBytes (x ∷ []) h = tt
pack-IsBytes [] h = tt

from_base64-IsBytes : (s : Str) → IsBytes (from_base64 s)
unfolding from_base64
from_base64-IsBytes s = pack-IsBytes (digits_of s) (digits_of-lt s)

digits_of-symbol_twice :
    (v w : ℕ) (s : Str)
    → v < 64
    → w < 64
    → digits_of (symbol v ∷ symbol w ∷ s) ≡ v ∷ w ∷ digits_of s
digits_of-symbol_twice v w s hv hw =
    digits_of-symbol v (symbol w ∷ s) hv ∙ ap (λ t. v ∷ t) (digits_of-symbol w s hw)

-- The six-bit digits of a byte string.
split : Bytes → List ℕ
split [] = []
split (a ∷ []) = (a / 4) ∷ (a % 4 * 16) ∷ []
split (a ∷ b ∷ []) = (a / 4) ∷ (a % 4 * 16 + b / 16) ∷ (b % 16 * 4) ∷ []
split (a ∷ b ∷ c ∷ rest) =
    (a / 4) ∷ (a % 4 * 16 + b / 16) ∷ (b % 16 * 4 + c / 64) ∷ (c % 64) ∷ split rest

digits_of-pad : (s : Str) → digits_of (b'=' ∷ s) ≡ []
unfolding digits_of
digits_of-pad s = refl

digits_of-to_base64 : (bs : Bytes) → IsBytes bs → digits_of (to_base64 bs) ≡ split bs
unfolding to_base64 split
digits_of-to_base64 [] h = unfold digits_of in refl
digits_of-to_base64 (a ∷ []) h =
    digits_of-symbol_twice (a / 4) (a % 4 * 16) _ (omega arith) (omega arith)
    ∙ ap (λ t. (a / 4) ∷ (a % 4 * 16) ∷ t) (digits_of-pad _)
digits_of-to_base64 (a ∷ b ∷ []) h =
    digits_of-symbol_twice (a / 4) (a % 4 * 16 + b / 16) _ (omega arith) (omega arith)
    ∙ ap (λ t. (a / 4) ∷ (a % 4 * 16 + b / 16) ∷ t)
        (digits_of-symbol (b % 16 * 4) _ (omega arith)
          ∙ ap (λ t. (b % 16 * 4) ∷ t) (digits_of-pad _))
digits_of-to_base64 (a ∷ b ∷ c ∷ rest) (ha, (hb, (hc, h))) =
    digits_of-symbol_twice (a / 4) (a % 4 * 16 + b / 16) _ (omega arith) (omega arith)
    ∙ ap (λ t. (a / 4) ∷ (a % 4 * 16 + b / 16) ∷ t)
        (digits_of-symbol_twice (b % 16 * 4 + c / 64) (c % 64) _ (omega arith) (omega arith)
          ∙ ap (λ t. (b % 16 * 4 + c / 64) ∷ (c % 64) ∷ t) (digits_of-to_base64 rest h))

pack-split : (bs : Bytes) → IsBytes bs → pack (split bs) ≡ bs
unfolding pack split
pack-split [] h = refl
pack-split (a ∷ []) h = ground arith
pack-split (a ∷ b ∷ []) h = ground arith
pack-split (a ∷ b ∷ c ∷ rest) (ha, (hb, (hc, h))) = ground (arith, pack-split rest h)

-- Decoding an encoding gives the bytes back.
pub from_base64-to_base64 : (bs : Bytes) → IsBytes bs → from_base64 (to_base64 bs) ≡ bs
unfolding from_base64
from_base64-to_base64 bs h = ap pack (digits_of-to_base64 bs h) ∙ pack-split bs h

pub length-to_base64 : (bs : Bytes) → length (to_base64 bs) % 4 ≡ 0
unfolding to_base64
length-to_base64 [] = refl
length-to_base64 (a ∷ []) = refl
length-to_base64 (a ∷ b ∷ []) = refl
length-to_base64 (a ∷ b ∷ c ∷ rest) = omega (arith, length-to_base64 rest)

symbols_then_padding-symbol :
    (v : ℕ) (s : Str) → v < 64 → symbols_then_padding (symbol v ∷ s) ≡ symbols_then_padding s
unfolding symbols_then_padding
symbols_then_padding-symbol v s h = rw (is_symbol-symbol v h)

symbols_then_padding-to_base64 :
    (bs : Bytes) → IsBytes bs → symbols_then_padding (to_base64 bs) ≡ true
unfolding to_base64
symbols_then_padding-to_base64 [] h = unfold symbols_then_padding in refl
symbols_then_padding-to_base64 (a ∷ []) h =
    symbols_then_padding-symbol (a / 4) _ (omega arith)
    ∙ symbols_then_padding-symbol (a % 4 * 16) _ (omega arith)
    ∙ unfold symbols_then_padding is_padding is_symbol in refl
symbols_then_padding-to_base64 (a ∷ b ∷ []) h =
    symbols_then_padding-symbol (a / 4) _ (omega arith)
    ∙ symbols_then_padding-symbol (a % 4 * 16 + b / 16) _ (omega arith)
    ∙ symbols_then_padding-symbol (b % 16 * 4) _ (omega arith)
    ∙ unfold symbols_then_padding is_padding is_symbol in refl
symbols_then_padding-to_base64 (a ∷ b ∷ c ∷ rest) (ha, (hb, (hc, h))) =
    symbols_then_padding-symbol (a / 4) _ (omega arith)
    ∙ symbols_then_padding-symbol (a % 4 * 16 + b / 16) _ (omega arith)
    ∙ symbols_then_padding-symbol (b % 16 * 4 + c / 64) _ (omega arith)
    ∙ symbols_then_padding-symbol (c % 64) _ (omega arith)
    ∙ symbols_then_padding-to_base64 rest h

matches_base64_of :
    (v : ℕ) (s : Str)
    → v < 64
    → symbols_then_padding (symbol v ∷ s) ≡ true
    → matches_base64 (symbol v ∷ s) ≡ true
unfolding matches_base64 symbols_then_padding
matches_base64_of v s hv h =
    rw (is_symbol-symbol v hv) (sym (symbols_then_padding-symbol v s hv) ∙ h)

matches_base64-to_base64 :
    (bs : Bytes) → IsBytes bs → bs ≢ [] → matches_base64 (to_base64 bs) ≡ true
unfolding to_base64
matches_base64-to_base64 [] h ne = absurd (ne refl)
matches_base64-to_base64 (a ∷ []) h ne =
    matches_base64_of (a / 4) _ (omega arith) (symbols_then_padding-to_base64 (a ∷ []) h)
matches_base64-to_base64 (a ∷ b ∷ []) h ne =
    matches_base64_of (a / 4) _ (omega arith) (symbols_then_padding-to_base64 (a ∷ b ∷ []) h)
matches_base64-to_base64 (a ∷ b ∷ c ∷ rest) h ne =
    matches_base64_of (a / 4) _ (omega arith) (symbols_then_padding-to_base64 (a ∷ b ∷ c ∷ rest) h)

pub to_base64-nonempty : (bs : Bytes) → bs ≢ [] → length (to_base64 bs) ≢ 0
unfolding to_base64
to_base64-nonempty [] ne = absurd (ne refl)
to_base64-nonempty (a ∷ []) ne = omega arith
to_base64-nonempty (a ∷ b ∷ []) ne = omega arith
to_base64-nonempty (a ∷ b ∷ c ∷ rest) ne = omega arith

strict_parts :
    (s : Str) (bs : Bytes)
    → strict s ≡ some bs
    → (s ≡ to_base64 bs) × (length s ≢ 0) × (bs ≡ from_base64 s)
unfolding strict
strict_parts s bs h = ground (arith, eq-text (to_base64 (from_base64 s)) s)

strict_sound :
    (s : Str) (bs : Bytes) → strict s ≡ some bs → (s ≡ to_base64 bs) × (bs ≢ []) × IsBytes bs
strict_sound s bs h =
    let (text, filled, bytes) = strict_parts s bs h in
    (
      text,
      λ empty. filled (ap length (text ∙ ap to_base64 empty) ∙ unfold to_base64 in refl),
      subst IsBytes (sym bytes) (from_base64-IsBytes s),
    )

strict_complete : (bs : Bytes) → IsBytes bs → bs ≢ [] → strict (to_base64 bs) ≡ some bs
unfolding strict
strict_complete bs h ne = ground (
  arith,
  to_base64-nonempty bs ne,
  length-to_base64 bs,
  matches_base64-to_base64 bs h ne,
  from_base64-to_base64 bs h,
  eq-text_refl (to_base64 bs),
)

-- The strict decoder accepts a value exactly if it is the canonical encoding of a non-empty
-- sequence of bytes, and then returns that sequence.
pub decode_strict_base64_iff :
    (v : Json) (bs : Bytes)
    → (decode_strict_base64 v ≡ some bs) ↔ ((v ≡ str (to_base64 bs)) × (bs ≢ []) × IsBytes bs)
unfolding decode_strict_base64
decode_strict_base64_iff (str s) bs = (
  λ h. let (text, filled, bytes) = strict_sound s bs h in (ap str text, filled, bytes),
  λ (text, filled, bytes).
      subst (λ v. decode_strict_base64 v ≡ some bs) (sym text) (strict_complete bs bytes filled),
)
decode_strict_base64_iff v bs = ground arith
