-- ===== src/Prelude/Result.antt =====
-- Code that may throw returns a `Result`. A failure is an `IssuerException` with its code, a
-- `ClaimRejected` with its reason, a unique violation of the database, or a plain `Error` with its
-- message. The messages of the first two are written for people and not modelled.
-- (errors/issuer.exception.ts, payment/claim-verifier.service.ts)
use mathlib.Core.Path.{◌≡◌, refl}
use mathlib.Core.Logic.{◌⊎◌, inl, inr}
use mathlib.Core.Bool.{Bool, true, false}
use credentials_issuer.Prelude.Texts.{Str}

pub data ErrorCode : Type 0 where
  request_invalid bundle_size blank_format claim_invalid idempotency_conflict : ErrorCode
  rate_limited wrong_epoch receipt_invalid entitlement_unknown not_due : ErrorCode

pub data RejectionReason : Type 0 where
  missing malformed bad_signature amount_mismatch : RejectionReason

pub data Failure : Type 0 where
  exception : ErrorCode → Failure
  claim_rejected : RejectionReason → Failure
  unique_violation : Failure
  error : Str → Failure

pub data Result {ℓ} (A : Type ℓ) : Type ℓ where
  ok : A → Result A
  err : Failure → Result A

-- `if (!test) throw failure`.
abbrev pub require : Bool → Failure → Result (Unit {0})
require false failure = err failure
require true failure = ok tt

-- What is thrown skips the rest.
module _ {κ} {B : Type κ} where
  infixl 5 ◌>>=◌ ◌>>◌
  abbrev pub ◌>>=◌ {ℓ} : {A : Type ℓ} → Result A → (A → Result B) → Result B
  err failure >>= rest = err failure
  ok value >>= rest = rest value

  abbrev pub ◌>>◌ : Result (Unit {0}) → Result B → Result B
  first >> rest = first >>= λ done. rest

pub Result-cases {ℓ} :
    {A : Type ℓ} (r : Result A) → ((a : A) × (r ≡ ok a)) ⊎ ((e : Failure) × (r ≡ err e))
Result-cases (ok a) = inl (a, refl)
Result-cases (err e) = inr (e, refl)
