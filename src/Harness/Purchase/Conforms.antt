-- ===== src/Harness/Purchase/Conforms.antt =====
-- What a purchase is whose report passed.
use credentials_issuer.Prelude.{
  ℕ, ◌≡◌, refl, sym, subst, true, not, Option, some, none, List, [], ◌∷◌, ◌++◌, Str, code_units,
  All, all, length, arith, inl, inr, keep_where, Bool-cases,
}
use credentials_issuer.Prelude.Json.{Json, str, get}
use credentials_issuer.Issuance.Request.{array_of}
use credentials_issuer.Harness.Outcome.{Outcome-cases, returned}
use credentials_issuer.Harness.Client.{Action, PaymentFlow, key_document, post_bundle}
use credentials_issuer.Harness.Conformance.{
  CheckResult, IssuedCredential, PreparedBundle, report, verdict, check_bundle, check_credentials,
  check_key_document, check_signatures_verify,
}
use credentials_issuer.Harness.Conformance.Checks.{IsConforming, check_bundle_iff, bundle_passed}
use credentials_issuer.Harness.Conformance.Documents.{
  IsKeyDocument, check_key_document-IsKeyDocument, key_document_passed,
}
use credentials_issuer.Harness.Purchase.{
  PurchaseTools, PurchaseOptions, PurchaseResult, purchase_bundle, buy, either_flow, judged,
  prepare_for, bundle_request, epoch_to_ask, check_signatures_of,
}

-- The key document was read and is good; blanks were prepared under its key, and the bundle that was
-- bought for them conforms to the epoch that was asked for; and its signatures, unblinded, are
-- credentials that verify.
pub record IsGoodPurchase (tools : PurchaseTools) (options : PurchaseOptions) (done : List Action)
    : Type 0 where
  pub document : Json
  pub prepared : PreparedBundle
  pub response : Json
  pub epoch : Str
  pub blobs : List Json
  pub credentials : List IssuedCredential
  pub read : (key_document options.client done).outcome ≡ returned document
  pub good_document : IsKeyDocument tools.date_parse document
  pub ready :
      prepare_for tools options.parameters.bundle_size (get document (code_units "pubkey"))
      ≡ returned prepared
  pub asked : epoch_to_ask options.epoch document ≡ some (str epoch)
  pub bought :
      (post_bundle options.client
        (bundle_request (some (str epoch)) prepared)
        (key_document options.client done).done).outcome
      ≡ returned response
  pub conforming : IsConforming response epoch options.parameters
  pub listed : array_of (get response (code_units "blind_signatures")) ≡ some blobs
  pub unblinded : prepared.finalize blobs ≡ some credentials
  pub verified : All (λ c. prepared.verify c ≡ true) credentials

all-append :
    (cs ds : List CheckResult)
    → all (λ c. c.passed) (cs ++ ds) ≡ true
    → (all (λ c. c.passed) cs ≡ true) × (all (λ c. c.passed) ds ≡ true)
all-append [] ds h = (refl, h)
all-append (c ∷ cs) ds h = ground (arith, all-append cs ds)

none_fails :
    (prepared : PreparedBundle) (cs : List IssuedCredential)
    → length (keep_where (λ c. not (prepared.verify c)) cs) ≡ 0
    → All (λ c. prepared.verify c ≡ true) cs
none_fails prepared [] h = tt
none_fails prepared (c ∷ cs) h = elim (Bool-cases (prepared.verify c)) [
  | inl good ↦ (good, none_fails prepared cs (ground arith))
  | inr bad ↦ ground arith
]

-- The signatures that pass their check.
abbrev AreVerified : PreparedBundle → Option (List Json) → Type 0
AreVerified prepared found =
    (blobs : List Json) × (credentials : List IssuedCredential) × (found ≡ some blobs)
    × (prepared.finalize blobs ≡ some credentials)
    × All (λ c. prepared.verify c ≡ true) credentials

credentials-AreVerified :
    (prepared : PreparedBundle) (o : Option (List IssuedCredential))
    → (check_credentials prepared o).0.passed ≡ true
    → (credentials : List IssuedCredential) × (o ≡ some credentials)
      × All (λ c. prepared.verify c ≡ true) credentials
unfolding check_credentials verdict
credentials-AreVerified prepared none h = cc h
credentials-AreVerified prepared (some credentials) h =
    (credentials, refl, none_fails prepared credentials (ground arith))

check_signatures_of-AreVerified :
    (prepared : PreparedBundle) (found : Option (List Json))
    → (check_signatures_of prepared found).0.passed ≡ true
    → AreVerified prepared found
unfolding check_signatures_of check_signatures_verify check_credentials verdict
check_signatures_of-AreVerified prepared none h = cc h
check_signatures_of-AreVerified prepared (some blobs) h =
    let (credentials, unblinded, verified) =
      credentials-AreVerified prepared (prepared.finalize blobs) (unfold check_credentials in h) in
    (blobs, credentials, refl, unblinded, verified)

epoch_of_document :
    (date_parse : Str → Option ℕ) (wanted : Option Str) (document : Json)
    → IsKeyDocument date_parse document
    → (epoch : Str) × (epoch_to_ask wanted document ≡ some (str epoch))
unfolding epoch_to_ask
epoch_of_document date_parse (some epoch) document good = (epoch, refl)
epoch_of_document date_parse none document good =
    let ((c, s, there), others) = good.complete in (c ∷ s, there)

judged-IsGoodPurchase :
    (tools : PurchaseTools) (options : PurchaseOptions) (done : List Action)
    (document response : Json) (prepared : PreparedBundle) (flow : PaymentFlow)
    → (key_document options.client done).outcome ≡ returned document
    → prepare_for tools options.parameters.bundle_size (get document (code_units "pubkey"))
      ≡ returned prepared
    → (post_bundle options.client
        (bundle_request (epoch_to_ask options.epoch document) prepared)
        (key_document options.client done).done).outcome
      ≡ returned response
    → (judged tools options document prepared flow response).conformance.passed ≡ true
    → IsGoodPurchase tools options done
unfolding judged report
judged-IsGoodPurchase tools options done document response prepared flow read ready bought h =
    let found = array_of (get response (code_units "blind_signatures")) in
    let wanted = epoch_to_ask options.epoch document in
    let (document_passes, rest) =
      all-append (check_key_document tools.date_parse document).checks _ h in
    let (bundle_passes, last) =
      all-append (check_bundle response wanted options.parameters).checks _ rest in
    let good =
      check_key_document-IsKeyDocument tools.date_parse document
        (key_document_passed tools.date_parse document document_passes) in
    let (epoch, asked) = epoch_of_document tools.date_parse options.epoch document good in
    let signed : (check_signatures_of prepared found).0.passed ≡ true = ground arith in
    let (blobs, credentials, listed, unblinded, verified) =
      check_signatures_of-AreVerified prepared found signed in
    record {
      document = document;
      prepared = prepared;
      response = response;
      epoch = epoch;
      blobs = blobs;
      credentials = credentials;
      read = read;
      good_document = good;
      ready = ready;
      asked = asked;
      bought =
          subst
            (λ e.
              (post_bundle options.client (bundle_request e prepared)
                (key_document options.client done).done).outcome
              ≡ returned response)
            asked bought;
      conforming = (check_bundle_iff response epoch options.parameters).0 (
          subst (λ e. (check_bundle response e options.parameters).passed ≡ true) asked
            (bundle_passed response wanted options.parameters bundle_passes));
      listed = listed;
      unblinded = unblinded;
      verified = verified;
    }

pub purchase_bundle-IsGoodPurchase :
    (tools : PurchaseTools) (options : PurchaseOptions) (done : List Action)
    (result : PurchaseResult)
    → (purchase_bundle tools options done).outcome ≡ returned result
    → result.conformance.passed ≡ true
    → IsGoodPurchase tools options done
unfolding purchase_bundle buy
purchase_bundle-IsGoodPurchase tools options done result h passed =
    let first = key_document options.client done in
    elim (Outcome-cases first.outcome) [
      | inr (e, bad) ↦ ground arith
      | inl (document, read) ↦
          elim (Outcome-cases (
            prepare_for tools options.parameters.bundle_size
              (get document (code_units "pubkey")))) [
                | inr (e, bad) ↦ ground arith
                | inl (prepared, ready) ↦
                    let second =
                      post_bundle options.client
                        (bundle_request (epoch_to_ask options.epoch document) prepared)
                        first.done in
                    elim (Outcome-cases second.outcome) [
                      | inr (e, bad) ↦ ground arith
                      | inl (response, bought) ↦
                          let made : judged tools options document prepared
                                (either_flow first.flow second.flow) response
                              ≡ result =
                            ground arith in
                          judged-IsGoodPurchase tools options done document response prepared
                            (either_flow first.flow second.flow) read ready bought
                            (subst (λ (r : PurchaseResult). r.conformance.passed ≡ true) (sym made)
                              passed)
                    ]
              ]
    ]
