-- ===== src/Payment/ClaimSigning.antt =====
-- payment/claim-signing.ts, and its twin in packages/buyer-harness/src/claim.ts: the text whose UTF-8
-- bytes `proxy_sig` covers. No surrogate is left unpaired in it, so it is well-formed UTF-16 and its
-- encoding loses nothing.
use credentials_issuer.Prelude.{List, [], ◌∷◌, ◌≡◌, refl, Str, code_units, arith}
use credentials_issuer.Stringify.{stringify}
use credentials_issuer.Stringify.Injective.{IsText, SameKeys, stringify-injective}

pub record SignedClaimFields : Type 0 where
  pub payment_ref : Str
  pub amount : Str
  pub route_id : Str

abbrev ordered : SignedClaimFields → List (Str × Str)
ordered fields =
    (code_units "amount", fields.amount)
    ∷ (code_units "payment_ref", fields.payment_ref)
    ∷ (code_units "route_id", fields.route_id)
    ∷ []

unfoldable pub canonical_claim_payload : SignedClaimFields → Str
canonical_claim_payload fields = stringify (ordered fields)

pub record IsTextClaim (fields : SignedClaimFields) : Type 0 where
  pub payment_ref : IsText fields.payment_ref
  pub amount : IsText fields.amount
  pub route_id : IsText fields.route_id

-- A signed payload stands for one claim: no other reference, amount or route has the same bytes.
pub canonical_claim_payload-injective :
    (a b : SignedClaimFields)
    → IsTextClaim a
    → IsTextClaim b
    → canonical_claim_payload a ≡ canonical_claim_payload b
    → (a.payment_ref ≡ b.payment_ref) × (a.amount ≡ b.amount) × (a.route_id ≡ b.route_id)
unfolding canonical_claim_payload
canonical_claim_payload-injective a b ha hb e =
    let keys : SameKeys (ordered a) (ordered b) = (
      refl,
      omega arith,
      ha.amount,
      hb.amount,
      (
        refl,
        omega arith,
        ha.payment_ref,
        hb.payment_ref,
        (refl, omega arith, ha.route_id, hb.route_id, tt),
      ),
    ) in
    let same : ordered a ≡ ordered b = stringify-injective (ordered a) (ordered b) keys e in
    (cc same, cc same, cc same)
