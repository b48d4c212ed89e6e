-- ===== src/Payment/Rejections.antt =====
-- payment/claim-rejections.service.ts: one counter for each reason. The store does not fail here.
use credentials_issuer.Prelude.{
  ℕ, ◌+◌, ◌≡◌, ◌↔◌, arith, Bool, true, false, List, [], ◌∷◌, if◌then◌else◌,
}
use credentials_issuer.Prelude.Result.{
  RejectionReason, missing, malformed, bad_signature, amount_mismatch, ok,
}
use credentials_issuer.Effect.{Action}
use credentials_issuer.Database.{ClaimRejection, Stores}

abbrev pub same_reason : RejectionReason → RejectionReason → Bool
same_reason missing missing = true
same_reason malformed malformed = true
same_reason bad_signature bad_signature = true
same_reason amount_mismatch amount_mismatch = true
same_reason _ _ = false

pub increment : RejectionReason → List ClaimRejection → List ClaimRejection
increment reason [] = record { reason = reason; count = 1 } ∷ []
increment reason (c ∷ cs) =
    if same_reason c.reason reason
    then record c { count = c.count + 1 } ∷ cs
    else c ∷ increment reason cs

unfoldable pub record_rejection : RejectionReason → Action Stores (Unit {0})
record_rejection reason s = (
  ok tt,
  record s {
    database = record s.database { claim_rejections = increment reason s.claim_rejections };
  },
)

-- A reason that was never counted has count 0.
pub count_for : RejectionReason → List ClaimRejection → ℕ
count_for reason [] = 0
count_for reason (c ∷ cs) = if same_reason c.reason reason then c.count else count_for reason cs

same_reason_iff : (a b : RejectionReason) → (same_reason a b ≡ true) ↔ (a ≡ b)
same_reason_iff a b = ground arith

-- Counting a rejection adds one to its reason and nothing to the others.
pub count_for-increment :
    (reason other : RejectionReason) (cs : List ClaimRejection)
    → count_for other (increment reason cs)
      ≡ (if same_reason reason other then count_for other cs + 1 else count_for other cs)
unfolding count_for increment
count_for-increment reason other [] = ground arith
count_for-increment reason other (c ∷ cs) = ground (
  arith,
  count_for-increment reason other cs,
  same_reason_iff c.reason reason,
  same_reason_iff c.reason other,
  same_reason_iff reason other,
)
