-- ===== src/Issuance/Service/Purchases.antt =====
-- What a caller and the ledger can rely on, whichever rail the grant comes from.
use credentials_issuer.Prelude.{
  ℕ, ◌≡◌, sym, ap, ◌∙◌, subst, true, Option, some, ◌∷◌, Str, length, ◌⊎◌, inl, inr,
}
use credentials_issuer.Prelude.Json.{Json}
use credentials_issuer.Prelude.Result.{Result, ok, err, Failure}
use credentials_issuer.Config.{IssuerConfig}
use credentials_issuer.Database.{Database, IdempotencyRecord, Stores}
use credentials_issuer.Accounting.Balance.{IsBalanced, IsBalanced-count_bundle}
use credentials_issuer.Issuance.Request.{BundleRequest}
use credentials_issuer.Issuance.Request.Accepted.{
  IsAccepted, IsAccepted-count, validate_bundle_request-IsAccepted,
}
use credentials_issuer.Issuance.Signing.{BundleResponse, fingerprint_request}
use credentials_issuer.Issuance.Signing.Counts.{IsSigned, IsSigned-count, sign_bundle-IsSigned}
use credentials_issuer.Issuance.Service.{IssuanceGrant, Services, claimed, given_key, issue}
use credentials_issuer.Issuance.Service.Atomic.{Issued, issue-Issued}
use credentials_issuer.Issuance.Service.Committed.{KeepsLedger, record_body-Committed, ledger_row}

abbrev BalancedDatabase : ℕ → Database → Type 0
BalancedDatabase k d = IsBalanced k d.issuance_records d.epoch_counters

module _ (config : IssuerConfig) (services : Services) (grant : IssuanceGrant) (key : Option Str)
    (body : Json) (s : Stores) where
  -- A call that fails has not changed the database, whatever failed and however late.
  pub issue-atomic :
      (e : Failure)
      → (issue config services grant key body s).0 ≡ err e
      → (issue config services grant key body s).1.database ≡ s.database
  issue-atomic e h = elim (issue-Issued config services grant key body s) [
    | Issued.failed f g same ↦ same
    | Issued.recorded request response counted valid usable signed same committed g ↦ cc
    | Issued.replayed request response used row valid usable signed given found print g same ↦ same
  ]

  -- What a delivered bundle says: an accepted request for an epoch that was usable, signed blank by
  -- blank in that epoch.
  pub record Delivery (response : BundleResponse) : Type 0 where
    pub request : BundleRequest
    pub accepted : IsAccepted config body request
    pub usable : services.usable request.epoch ≡ true
    pub signed : IsSigned services.sign_blinded_blank request response

  -- Why a delivered bundle is not free: its row is in the ledger from now on, or the key was claimed
  -- before with the fingerprint of this very request, and nothing is written.
  abbrev pub IsPaidFor : BundleRequest → Stores → Type 0
  IsPaidFor request t =
      (t.issuance_records ≡ ledger_row grant.reference request.epoch ∷ s.issuance_records)
      ⊎ ((used : Str) × (row : IdempotencyRecord) × (given_key key ≡ some used)
          × (claimed grant.reference used s ≡ some row)
          × (row.request_fingerprint ≡ fingerprint_request services.sha256 grant.reference request)
          × (t.database ≡ s.database))

  Issued-Delivery :
      (response : BundleResponse) (p : Result BundleResponse × Stores)
      → KeepsLedger grant
      → Issued config services grant key body s p
      → p.0 ≡ ok response
      → (d : Delivery response) × IsPaidFor d.request p.1
  Issued-Delivery response p keeps (Issued.failed f g same) h = cc
  Issued-Delivery response p keeps
        (Issued.recorded request r counted valid usable signed same committed g) h =
      let made : r ≡ response = cc in
      let written =
        record_body-Committed config.bundle_size grant request r _ counted p.1 keeps committed in
      (
        record {
          request = request;
          accepted = validate_bundle_request-IsAccepted config body request valid;
          usable = usable;
          signed =
              subst (IsSigned services.sign_blinded_blank request) made
                (sign_bundle-IsSigned _ request r signed);
        },
        inl (
            written.ledger
            ∙ ap (λ (d : Database). ledger_row grant.reference request.epoch ∷ d.issuance_records)
                same),
      )
  Issued-Delivery response p keeps
        (Issued.replayed request r used row valid usable signed given found print g same) h =
      let made : r ≡ response = cc in
      (
        record {
          request = request;
          accepted = validate_bundle_request-IsAccepted config body request valid;
          usable = usable;
          signed =
              subst (IsSigned services.sign_blinded_blank request) made
                (sign_bundle-IsSigned _ request r signed);
        },
        inr (used, row, given, found, print, same),
      )

  -- If the grant's bookkeeping leaves ledger, counters and claimed keys alone: every bundle that is
  -- delivered was asked for by an accepted request, signed in a usable epoch
  -- blank by blank, and either recorded in the ledger or the replay of a recorded claim.
  pub issue-Delivery :
      (response : BundleResponse)
      → KeepsLedger grant
      → (issue config services grant key body s).0 ≡ ok response
      → (d : Delivery response) × IsPaidFor d.request (issue config services grant key body s).1
  issue-Delivery response keeps h =
      Issued-Delivery response _ keeps (issue-Issued config services grant key body s) h

  Issued-IsBalanced :
      (p : Result BundleResponse × Stores)
      → KeepsLedger grant
      → Issued config services grant key body s p
      → IsBalanced config.bundle_size s.issuance_records s.epoch_counters
      → IsBalanced config.bundle_size p.1.issuance_records p.1.epoch_counters
  Issued-IsBalanced p keeps (Issued.failed f g same) b =
      subst (BalancedDatabase config.bundle_size) (sym same) b
  Issued-IsBalanced p keeps
        (Issued.replayed request r used row valid usable signed given found print g same) b =
      subst (BalancedDatabase config.bundle_size) (sym same) b
  Issued-IsBalanced p keeps (Issued.recorded request r counted valid usable signed same committed g)
        b =
      let written =
        record_body-Committed config.bundle_size grant request r _ counted p.1 keeps committed in
      let before : BalancedDatabase config.bundle_size counted.database =
        subst (BalancedDatabase config.bundle_size) (sym same) b in
      let full : length r.blind_signatures ≡ config.bundle_size =
        IsSigned-count (sign_bundle-IsSigned services.sign_blinded_blank request r signed)
        ∙ IsAccepted-count (validate_bundle_request-IsAccepted config body request valid) in
      rw (written.ledger, written.counters, full)
        (IsBalanced-count_bundle config.bundle_size grant.reference request.epoch
          counted.issuance_records counted.epoch_counters before)

  -- If the grant's bookkeeping leaves ledger, counters and claimed keys alone, a call keeps counters
  -- and ledger in balance, however it ends.
  pub issue-IsBalanced :
      KeepsLedger grant
      → IsBalanced config.bundle_size s.issuance_records s.epoch_counters
      → IsBalanced config.bundle_size
          (issue config services grant key body s).1.issuance_records
          (issue config services grant key body s).1.epoch_counters
  issue-IsBalanced keeps b =
      Issued-IsBalanced _ keeps (issue-Issued config services grant key body s) b
