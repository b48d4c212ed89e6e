-- ===== src/Harness/Purchase/Runs.antt =====
-- What a whole purchase costs.
use credentials_issuer.Prelude.{
  ℕ, ◌≡◌, ◌≤◌, ◌+◌, refl, sym, subst, List, [], code_units, some, none, arith, inl, inr,
  count_where,
}
use credentials_issuer.Prelude.Json.{Json, get}
use credentials_issuer.Harness.Outcome.{Outcome-cases}
use credentials_issuer.Harness.Client.{
  Action, IssuerClient, key_document, post_bundle, purchase_headers, reading,
}
use credentials_issuer.Harness.Client.Once.{is_paid, is_sent, request-pays_once}
use credentials_issuer.Harness.Purchase.{
  PurchaseTools, PurchaseOptions, purchase_bundle, buy, prepare_for, bundle_request, epoch_to_ask,
}

-- At most so many payments and requests more than before.
abbrev pub Costs : ℕ → ℕ → List Action → List Action → Type 0
Costs payments requests before after =
    (count_where is_paid after ≤ payments + count_where is_paid before)
    × (count_where is_sent after ≤ requests + count_where is_sent before)

key_document-Costs :
    (client : IssuerClient) (done : List Action) → Costs 1 2 done (key_document client done).done
unfolding key_document reading
key_document-Costs client done =
    request-pays_once client (code_units "/v1/keys/current") (record { headers = []; body = none })
      done

post_bundle-Costs :
    (client : IssuerClient) (body : Json) (done : List Action)
    → Costs 1 2 done (post_bundle client body done).done
unfolding post_bundle reading
post_bundle-Costs client body done =
    request-pays_once client (code_units "/v1/bundles")
      (record { headers = purchase_headers client; body = some body }) done

-- A full purchase, however it ends and whatever the network answers, settles at most two demands for
-- payment, one for the key document and one for the bundle, and sends at most four requests.
pub purchase_bundle-Costs :
    (tools : PurchaseTools) (options : PurchaseOptions) (done : List Action)
    → Costs 2 4 done (purchase_bundle tools options done).done
unfolding purchase_bundle buy
purchase_bundle-Costs tools options done =
    let first = key_document options.client done in
    let (paid, sent) = key_document-Costs options.client done in
    elim (Outcome-cases first.outcome) [
      | inr (e, failed) ↦
          let same : (purchase_bundle tools options done).done ≡ first.done =
            rw (purchase_bundle, failed) refl in
          subst (Costs 2 4 done) (sym same) (omega (arith, paid), omega (arith, sent))
      | inl (document, read) ↦
          elim (Outcome-cases (
            prepare_for tools options.parameters.bundle_size
              (get document (code_units "pubkey")))) [
                | inr (e, failed) ↦
                    let same : (purchase_bundle tools options done).done ≡ first.done =
                      rw (purchase_bundle, read, failed) refl in
                    subst (Costs 2 4 done) (sym same) (omega (arith, paid), omega (arith, sent))
                | inl (prepared, made) ↦
                    let body = bundle_request (epoch_to_ask options.epoch document) prepared in
                    let (more, again) = post_bundle-Costs options.client body first.done in
                    let same : (purchase_bundle tools options done).done
                        ≡ (post_bundle options.client body first.done).done =
                      rw (purchase_bundle, read, made, buy) refl in
                    subst (Costs 2 4 done) (sym same)
                      (omega (arith, paid, more), omega (arith, sent, again))
              ]
    ]
