-- ===== src/Harness/Issued.antt =====
-- The issuer's side and the harness's side together: packages/buyer-harness/src/conformance.ts judges
-- what issuance/issuance.service.ts delivers.
use credentials_issuer.Prelude.{
  ℕ, ◌≡◌, refl, sym, ◌∙◌, true, Option, some, List, [], ◌∷◌, Str, code_units, All, map, length-map,
  ◌===◌,
}
use credentials_issuer.Prelude.Json.{
  Json, str, arr, obj, field, end, items, from_list, get, lookup_field,
}
use credentials_issuer.Prelude.Result.{Result, ok}
use credentials_issuer.Config.{IssuerConfig}
use credentials_issuer.Database.{Stores}
use credentials_issuer.Issuance.Request.{array_of}
use credentials_issuer.Issuance.Request.Accepted.{IsAccepted-count}
use credentials_issuer.Issuance.Signing.{BundleResponse}
use credentials_issuer.Issuance.Signing.Counts.{AreSigned, IsSigned-count}
use credentials_issuer.Issuance.Service.{IssuanceGrant, Services, issue}
use credentials_issuer.Issuance.Service.Committed.{KeepsLedger}
use credentials_issuer.Issuance.Service.Purchases.{issue-Delivery}
use credentials_issuer.Harness.Conformance.{BundleParameters, check_bundle}
use credentials_issuer.Harness.Conformance.Checks.{IsBlob, check_bundle_iff}

-- The response as the framework writes it.
pub bundle_json : BundleResponse → Json
bundle_json response = obj (
    field (code_units "epoch") (str response.epoch) (
      field (code_units "blind_signatures") (arr (from_list (map str response.blind_signatures)))
        end))

get-bundle_json :
    (response : BundleResponse)
    → (get (bundle_json response) (code_units "epoch") ≡ some (str response.epoch))
      × (array_of (get (bundle_json response) (code_units "blind_signatures"))
          ≡ some (items (from_list (map str response.blind_signatures))))
unfolding bundle_json lookup_field ◌===◌ array_of
get-bundle_json response = (refl, refl)

items-from_list : (vs : List Json) → items (from_list vs) ≡ vs
items-from_list [] = refl
items-from_list (v ∷ vs) = rw (items-from_list vs)

signed-blobs :
    (size : ℕ) (sign : Str → Result Str) (blanks signatures : List Str)
    → ((blank signature : Str) → sign blank ≡ ok signature → IsBlob size (str signature))
    → AreSigned sign blanks signatures
    → All (IsBlob size) (map str signatures)
signed-blobs size sign [] [] law h = tt
signed-blobs size sign (b ∷ bs) (s ∷ ss) law (here, rest) =
    (law b s here, signed-blobs size sign bs ss law rest)
signed-blobs size sign [] (s ∷ ss) law h = absurd h
signed-blobs size sign (b ∷ bs) [] law h = absurd h

-- If the grant's bookkeeping leaves the ledger alone, the harness expects the configured number of
-- signatures and every signature of the signer decodes to the size that it expects: each bundle that
-- the issuer delivers passes the checks of the harness under the epoch that was requested.
pub issue-check_bundle :
    (config : IssuerConfig) (services : Services) (grant : IssuanceGrant) (key : Option Str)
    (body : Json) (s : Stores) (parameters : BundleParameters) (response : BundleResponse)
    (epoch : Str)
    → KeepsLedger grant
    → parameters.bundle_size ≡ config.bundle_size
    → ((e blank signature : Str)
        → services.sign_blinded_blank e blank ≡ ok signature
        → IsBlob parameters.signature_size_bytes (str signature))
    → get body (code_units "epoch") ≡ some (str epoch)
    → (issue config services grant key body s).0 ≡ ok response
    → (check_bundle (bundle_json response) (some (str epoch)) parameters).passed ≡ true
issue-check_bundle config services grant key body s parameters response epoch keeps sized law asked
      h =
    let (d, _) = issue-Delivery config services grant key body s response keeps h in
    let (told, listed) = get-bundle_json response in
    let named : d.request.epoch ≡ epoch = cc (d.accepted.epoch, asked) in
    let signatures = map str response.blind_signatures in
    (check_bundle_iff (bundle_json response) epoch parameters).1 (record {
      blobs = signatures;
      listed = rw (listed, items-from_list signatures);
      count =
          length-map str response.blind_signatures
          ∙ IsSigned-count d.signed
          ∙ IsAccepted-count d.accepted
          ∙ sym sized;
      sizes =
          signed-blobs parameters.signature_size_bytes (services.sign_blinded_blank d.request.epoch)
            d.request.blinded_blanks response.blind_signatures (law d.request.epoch)
            d.signed.signatures;
      echoed = cc (told, d.signed.epoch, named);
    })
