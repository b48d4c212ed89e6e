-- ===== src/Payment/Verifier/Admits.antt =====
-- Which claims the verifier accepts, and that the price is told to nobody without a signature.
use credentials_issuer.Prelude.{
  ◌≡◌, ◌↔◌, refl, Bool, true, false, Option, none, some, Str, arith, inl, inr, Bool-cases,
}
use credentials_issuer.Prelude.Result.{ok}
use credentials_issuer.Errors.Base64.{Bytes}
use credentials_issuer.Issuance.Request.{non_empty_string}
use credentials_issuer.Payment.Decimal.{decimal_equals}
use credentials_issuer.Payment.Claim.{PaymentClaim}
use credentials_issuer.Payment.ClaimSigning.{canonical_claim_payload}
use credentials_issuer.Payment.Verifier.{verify, verify_parts, signature_bytes}

-- What makes a claim good: its fields are there, the key's owner signed them together with the
-- reference, and the amount is the price.
pub record IsGood (bundle_price payment_ref : Str) (verify_signature : Option (Bytes → Str → Bool))
    (amount_field route_id_field proxy_sig_field : Option Str) : Type 0 where
  pub verify_under_key : Bytes → Str → Bool
  pub amount : Str
  pub route_id : Str
  pub proxy_sig : Str
  pub key_loaded : verify_signature ≡ some verify_under_key
  pub has_amount : amount_field ≡ some amount
  pub has_route_id : route_id_field ≡ some route_id
  pub has_proxy_sig : proxy_sig_field ≡ some proxy_sig
  pub signed :
      verify_under_key (signature_bytes proxy_sig) (
        canonical_claim_payload
          (record { payment_ref = payment_ref; amount = amount; route_id = route_id }))
      ≡ true
  pub priced : decimal_equals amount bundle_price ≡ true

abbrev pub IsAdmitted : Str → Option (Bytes → Str → Bool) → PaymentClaim → Type 0
IsAdmitted bundle_price verify_signature claim =
    IsGood bundle_price claim.payment_ref verify_signature (non_empty_string claim.amount)
      (non_empty_string claim.route_id) (non_empty_string claim.proxy_sig)

verify_parts-IsGood :
    (bundle_price payment_ref : Str) (key : Option (Bytes → Str → Bool)) (a r s : Option Str)
    → verify_parts bundle_price payment_ref key a r s ≡ ok tt
    → IsGood bundle_price payment_ref key a r s
unfolding verify_parts
verify_parts-IsGood bundle_price payment_ref (some key) (some a) (some r) (some s) h = record {
  verify_under_key = key;
  amount = a;
  route_id = r;
  proxy_sig = s;
  key_loaded = refl;
  has_amount = refl;
  has_route_id = refl;
  has_proxy_sig = refl;
  signed = ground arith;
  priced = ground arith;
}
verify_parts-IsGood bundle_price payment_ref _ _ _ _ h = cc

verify_parts_of_IsGood :
    (bundle_price payment_ref : Str) (key : Option (Bytes → Str → Bool)) (a r s : Option Str)
    → IsGood bundle_price payment_ref key a r s
    → verify_parts bundle_price payment_ref key a r s ≡ ok tt
unfolding verify_parts
verify_parts_of_IsGood bundle_price payment_ref key a r s g =
    rw (g.key_loaded, g.has_amount, g.has_route_id, g.has_proxy_sig, g.signed, g.priced)

-- The verifier accepts a claim exactly if the key is loaded, amount, route and signature are
-- non-empty strings, the signature verifies on the canonical payload of the claim's own reference,
-- amount and route, and the amount is the bundle price.
pub verify_iff :
    (bundle_price : Str) (verify_signature : Option (Bytes → Str → Bool)) (claim : PaymentClaim)
    → (verify bundle_price verify_signature claim ≡ ok tt)
      ↔ IsAdmitted bundle_price verify_signature claim
unfolding verify
verify_iff bundle_price verify_signature claim = (
  verify_parts-IsGood bundle_price claim.payment_ref verify_signature _ _ _,
  verify_parts_of_IsGood bundle_price claim.payment_ref verify_signature _ _ _,
)

-- The fields of a claim are signed under a key, together with the reference.
abbrev pub IsSigned : (Bytes → Str → Bool) → PaymentClaim → Type 0
IsSigned key claim =
    (amount : Str) × (route_id : Str) × (proxy_sig : Str) × (non_empty_string claim.amount
      ≡ some amount)
    × (non_empty_string claim.route_id ≡ some route_id)
    × (non_empty_string claim.proxy_sig ≡ some proxy_sig)
    × (key (signature_bytes proxy_sig) (
          canonical_claim_payload
            (record { payment_ref = claim.payment_ref; amount = amount; route_id = route_id }))
        ≡ true)

verify_parts-unsigned :
    (price other payment_ref : Str) (key : Bytes → Str → Bool) (a r s : Option Str)
    → ((amount route_id proxy_sig : Str)
        → a ≡ some amount
        → r ≡ some route_id
        → s ≡ some proxy_sig
        → key (signature_bytes proxy_sig) (
            canonical_claim_payload
              (record { payment_ref = payment_ref; amount = amount; route_id = route_id }))
          ≡ false)
    → verify_parts price payment_ref (some key) a r s
      ≡ verify_parts other payment_ref (some key) a r s
unfolding verify_parts
verify_parts-unsigned price other payment_ref key (some a) (some r) (some s) h =
    rw (h a r s refl refl refl)
verify_parts-unsigned price other payment_ref key none r s h = refl
verify_parts-unsigned price other payment_ref key (some a) none s h = refl
verify_parts-unsigned price other payment_ref key (some a) (some r) none h = refl

-- A caller whose claim is not signed under the loaded key, over its own reference, amount and route,
-- learns nothing of the price: the answer is the same whatever the price is.
pub verify-unsigned :
    (price other : Str) (key : Bytes → Str → Bool) (claim : PaymentClaim)
    → ¬ IsSigned key claim
    → verify price (some key) claim ≡ verify other (some key) claim
unfolding verify
verify-unsigned price other key claim unsigned =
    verify_parts-unsigned price other claim.payment_ref key (non_empty_string claim.amount)
      (non_empty_string claim.route_id) (non_empty_string claim.proxy_sig)
      (λ amount route_id proxy_sig a r s.
        elim (Bool-cases (
          key (signature_bytes proxy_sig) (
            canonical_claim_payload (record {
              payment_ref = claim.payment_ref;
              amount = amount;
              route_id = route_id;
            })))) [
              | inl good ↦ absurd (unsigned (amount, route_id, proxy_sig, a, r, s, good))
              | inr bad ↦ bad
            ])
