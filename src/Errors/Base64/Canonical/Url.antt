-- ===== src/Errors/Base64/Canonical/Url.antt =====
-- `Buffer.from(bytes).toString('base64url')`, written out: the alphabet of URLs, without padding. The
-- decoder of Errors.Base64 reads both alphabets.
use credentials_issuer.Prelude.{
  ℕ, ◌+◌, ◌-◌, ◌*◌, ◌/◌, ◌%◌, ◌<◌, ◌≡◌, ◌≢◌, refl, ap, ◌∙◌, false, some, [], ◌∷◌, Str, arith, ltb,
  ◌==◌, if◌then◌else◌, length,
}
use credentials_issuer.Errors.Base64.{Bytes, digit, digits_of, from_base64, pack}
use credentials_issuer.Errors.Base64.Canonical.{IsBytes, split, pack-split}

url_symbol : ℕ → ℕ
url_symbol v =
    if ltb v 26
    then 65 + v
    else if ltb v 52
    then 71 + v
    else if ltb v 62
    then v - 4
    else if v == 62
    then b'-'
    else b'_'

unfoldable pub to_base64url : Bytes → Str
unfolding url_symbol
to_base64url [] = []
to_base64url (a ∷ []) = url_symbol (a / 4) ∷ url_symbol (a % 4 * 16) ∷ []
to_base64url (a ∷ b ∷ []) =
    url_symbol (a / 4) ∷ url_symbol (a % 4 * 16 + b / 16) ∷ url_symbol (b % 16 * 4) ∷ []
to_base64url (a ∷ b ∷ c ∷ rest) =
    url_symbol (a / 4)
    ∷ url_symbol (a % 4 * 16 + b / 16)
    ∷ url_symbol (b % 16 * 4 + c / 64)
    ∷ url_symbol (c % 64)
    ∷ to_base64url rest

digit-url_symbol : (v : ℕ) → v < 64 → digit (url_symbol v) ≡ some v
unfolding digit url_symbol
digit-url_symbol v h = ground arith

url_symbol-ne-pad : (v : ℕ) → v < 64 → (url_symbol v == b'=') ≡ false
unfolding url_symbol
url_symbol-ne-pad v h = ground arith

digits_of-url_symbol : (v : ℕ) (s : Str) → v < 64 → digits_of (url_symbol v ∷ s) ≡ v ∷ digits_of s
unfolding digits_of
digits_of-url_symbol v s h = ground (arith, digit-url_symbol v, url_symbol-ne-pad v)

digits_of-url_symbol_twice :
    (v w : ℕ) (s : Str)
    → v < 64
    → w < 64
    → digits_of (url_symbol v ∷ url_symbol w ∷ s) ≡ v ∷ w ∷ digits_of s
digits_of-url_symbol_twice v w s hv hw =
    digits_of-url_symbol v (url_symbol w ∷ s) hv ∙ ap (λ t. v ∷ t) (digits_of-url_symbol w s hw)

digits_of-to_base64url : (bs : Bytes) → IsBytes bs → digits_of (to_base64url bs) ≡ split bs
unfolding to_base64url split
digits_of-to_base64url [] h = unfold digits_of in refl
digits_of-to_base64url (a ∷ []) h =
    digits_of-url_symbol_twice (a / 4) (a % 4 * 16) [] (omega arith) (omega arith)
    ∙ unfold digits_of in refl
digits_of-to_base64url (a ∷ b ∷ []) h =
    digits_of-url_symbol_twice (a / 4) (a % 4 * 16 + b / 16) _ (omega arith) (omega arith)
    ∙ ap (λ t. (a / 4) ∷ (a % 4 * 16 + b / 16) ∷ t)
        (digits_of-url_symbol (b % 16 * 4) [] (omega arith) ∙ unfold digits_of in refl)
digits_of-to_base64url (a ∷ b ∷ c ∷ rest) (ha, (hb, (hc, h))) =
    digits_of-url_symbol_twice (a / 4) (a % 4 * 16 + b / 16) _ (omega arith) (omega arith)
    ∙ ap (λ t. (a / 4) ∷ (a % 4 * 16 + b / 16) ∷ t)
        (digits_of-url_symbol_twice (b % 16 * 4 + c / 64) (c % 64) _ (omega arith) (omega arith)
          ∙ ap (λ t. (b % 16 * 4 + c / 64) ∷ (c % 64) ∷ t) (digits_of-to_base64url rest h))

-- Decoding the URL form gives the bytes back.
pub from_base64-to_base64url : (bs : Bytes) → IsBytes bs → from_base64 (to_base64url bs) ≡ bs
unfolding from_base64
from_base64-to_base64url bs h = ap pack (digits_of-to_base64url bs h) ∙ pack-split bs h

pub to_base64url-nonempty : (bs : Bytes) → bs ≢ [] → length (to_base64url bs) ≢ 0
unfolding to_base64url
to_base64url-nonempty [] ne = absurd (ne refl)
to_base64url-nonempty (a ∷ []) ne = omega arith
to_base64url-nonempty (a ∷ b ∷ []) ne = omega arith
to_base64url-nonempty (a ∷ b ∷ c ∷ rest) ne = omega arith
