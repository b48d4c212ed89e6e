-- ===== src/Issuance/Service/Examples.antt =====
-- Tests of the issuance on concrete inputs.
use credentials_issuer.Prelude.{
  length, ◌≡◌, refl, ap, ◌∙◌, true, Option, none, some, [], ◌∷◌, Str, code_units, ◌===◌,
  if◌then◌else◌,
}
use credentials_issuer.Prelude.Result.{ok, err, exception, request_invalid, idempotency_conflict}
use credentials_issuer.Prelude.Json.{null}
use credentials_issuer.Database.{Stores, empty_stores}
use credentials_issuer.Accounting.Balance.{IsBalanced, IsBalanced-empty}
use credentials_issuer.Issuance.Signing.{BundleResponse, fingerprint_request}
use credentials_issuer.Issuance.Request.{BundleRequest, validate_bundle_request}
use credentials_issuer.Issuance.Service.{
  Services, issue, given_key, deliver, record_issuance, record_body,
}
use credentials_issuer.Payment.RateLimiter.{count_request, within_budget, allow}
use credentials_issuer.Issuance.Service.Committed.{KeepsLedger}
use credentials_issuer.Issuance.Service.Purchases.{
  Delivery, IsPaidFor, issue-atomic, issue-Delivery, issue-IsBalanced,
}
use credentials_issuer.Entitlements.Service.{Schedule, drip_grant}
use credentials_issuer.Issuance.Service.Retries.{counted_call, issue-claimed, issue-retry}
use credentials_issuer.Examples.{small_config, some_services, a_body, a_grant}

abbrev a_key : Option Str
a_key = some (code_units "k")

abbrev a_request : BundleRequest
a_request = record {
  epoch = code_units "e";
  blinded_blanks = code_units "AA==" ∷ code_units "AQ==" ∷ [];
}

abbrev a_response : BundleResponse
a_response = record {
  epoch = code_units "e";
  blind_signatures = code_units "AA==" ∷ code_units "AQ==" ∷ [];
}

-- The stores after one delivered call.
abbrev delivered : Stores
delivered = (issue small_config some_services a_grant a_key a_body empty_stores).1

a_grant-KeepsLedger : KeepsLedger a_grant
a_grant-KeepsLedger = record {
  idempotency_records = λ consume s e. cc e;
  issuance_records = λ consume s e. cc e;
  epoch_counters = λ consume s e. cc e;
}

validated : validate_bundle_request small_config a_body ≡ ok a_request
unfolding validate_bundle_request credentials_issuer.Prelude.Json.lookup_field ◌===◌
    credentials_issuer.Issuance.Request.blank_texts
    credentials_issuer.Errors.Base64.decode_strict_base64
validated = refl

issued : (issue small_config some_services a_grant a_key a_body empty_stores).0 ≡ ok a_response
unfolding issue credentials_issuer.Payment.RateLimiter.allow
    credentials_issuer.Payment.RateLimiter.within_budget
    credentials_issuer.Payment.RateLimiter.members credentials_issuer.Payment.RateLimiter.slide
    credentials_issuer.Payment.RateLimiter.scores_of validate_bundle_request
    credentials_issuer.Prelude.Json.lookup_field ◌===◌
    credentials_issuer.Issuance.Request.blank_texts
    credentials_issuer.Errors.Base64.decode_strict_base64
    credentials_issuer.Issuance.Signing.sign_bundle credentials_issuer.Issuance.Service.deliver
    credentials_issuer.Issuance.Service.given_key
    credentials_issuer.Issuance.Service.record_issuance
    credentials_issuer.Issuance.Service.record_body
issued = refl

-- A signer that returns the same signature whatever it signs.
abbrev pub constant_services : Services
constant_services = record some_services {
  sign_blinded_blank = λ epoch blank. ok (code_units "AA==");
}

abbrev pub constant_response : BundleResponse
constant_response = record {
  epoch = code_units "e";
  blind_signatures = code_units "AA==" ∷ code_units "AA==" ∷ [];
}

pub issued_constant :
    (issue small_config constant_services a_grant none a_body empty_stores).0 ≡ ok constant_response
unfolding issue credentials_issuer.Payment.RateLimiter.allow
    credentials_issuer.Payment.RateLimiter.within_budget
    credentials_issuer.Payment.RateLimiter.members credentials_issuer.Payment.RateLimiter.slide
    credentials_issuer.Payment.RateLimiter.scores_of validate_bundle_request
    credentials_issuer.Prelude.Json.lookup_field ◌===◌
    credentials_issuer.Issuance.Request.blank_texts
    credentials_issuer.Errors.Base64.decode_strict_base64
    credentials_issuer.Issuance.Signing.sign_bundle credentials_issuer.Issuance.Service.deliver
    credentials_issuer.Issuance.Service.given_key
    credentials_issuer.Issuance.Service.record_issuance
    credentials_issuer.Issuance.Service.record_body
issued_constant = refl

refused :
    (issue small_config some_services a_grant a_key null empty_stores).0
    ≡ err (exception request_invalid)
unfolding issue credentials_issuer.Payment.RateLimiter.allow
    credentials_issuer.Payment.RateLimiter.within_budget
    credentials_issuer.Payment.RateLimiter.members credentials_issuer.Payment.RateLimiter.slide
    credentials_issuer.Payment.RateLimiter.scores_of validate_bundle_request
refused = refl

issue-atomic_example :
    (issue small_config some_services a_grant a_key null empty_stores).1.database
    ≡ empty_stores.database
issue-atomic_example =
    issue-atomic small_config some_services a_grant a_key null empty_stores
      (exception request_invalid) refused

issue-Delivery_example :
    (d : Delivery small_config some_services a_grant a_key a_body empty_stores a_response)
    × IsPaidFor small_config some_services a_grant a_key a_body empty_stores d.request
        (issue small_config some_services a_grant a_key a_body empty_stores).1
issue-Delivery_example =
    issue-Delivery small_config some_services a_grant a_key a_body empty_stores a_response
      a_grant-KeepsLedger issued

issue-IsBalanced_example :
    IsBalanced 2
      (issue small_config some_services a_grant a_key a_body empty_stores).1.issuance_records
      (issue small_config some_services a_grant a_key a_body empty_stores).1.epoch_counters
issue-IsBalanced_example =
    issue-IsBalanced small_config some_services a_grant a_key a_body empty_stores
      a_grant-KeepsLedger (IsBalanced-empty 2)

given : given_key a_key ≡ some (code_units "k")
unfolding given_key
given = refl

first_store : delivered.redis ≡ count_request small_config 1000000 1000000 (code_units "p") []
unfolding issue allow validate_bundle_request credentials_issuer.Issuance.Request.blank_texts
    credentials_issuer.Errors.Base64.decode_strict_base64
    credentials_issuer.Prelude.Json.lookup_field ◌===◌
    credentials_issuer.Issuance.Signing.sign_bundle deliver record_issuance record_body
    credentials_issuer.Payment.RateLimiter.within_budget
    credentials_issuer.Payment.RateLimiter.members credentials_issuer.Payment.RateLimiter.slide
    credentials_issuer.Payment.RateLimiter.scores_of count_request given_key
first_store = refl

counted_once :
    within_budget small_config 1000000 1000000
      (code_units "p")
      (count_request small_config 1000000 1000000 (code_units "p") [])
    ≡ true
unfolding within_budget credentials_issuer.Payment.RateLimiter.members
    credentials_issuer.Payment.RateLimiter.slide credentials_issuer.Payment.RateLimiter.scores_of
    count_request ◌===◌
counted_once = refl

issue-retry_example :
    issue small_config some_services a_grant a_key a_body delivered
    ≡ (ok a_response, counted_call small_config some_services (code_units "p") delivered)
issue-retry_example =
    issue-retry small_config some_services some_services a_grant a_key a_body empty_stores delivered
      (code_units "k") a_request a_response a_grant-KeepsLedger issued given validated refl refl
      refl refl
      (ap (within_budget small_config 1000000 1000000 (code_units "p")) first_store ∙ counted_once)

abbrev another_print : Stores
another_print = record empty_stores {
  database = record empty_stores.database {
    idempotency_records =
        record {
          payment_ref = code_units "p";
          idempotency_key = code_units "k";
          request_fingerprint = [];
        }
        ∷ [];
  };
}

issue-claimed_example :
    ((issue small_config some_services a_grant a_key a_body another_print).0 ≡ (
      if [] === fingerprint_request some_services.sha256 a_grant.reference a_request
      then ok a_response
      else err (exception idempotency_conflict)))
    × ((issue small_config some_services a_grant a_key a_body another_print).1.database
        ≡ another_print.database)
unfolding credentials_issuer.Payment.RateLimiter.within_budget
    credentials_issuer.Payment.RateLimiter.members credentials_issuer.Payment.RateLimiter.slide
    credentials_issuer.Payment.RateLimiter.scores_of credentials_issuer.Issuance.Signing.sign_bundle
    credentials_issuer.Issuance.Service.given_key credentials_issuer.Issuance.Service.claimed ◌===◌
issue-claimed_example =
    issue-claimed small_config some_services a_grant a_key a_body another_print (code_units "k")
      (record {
        payment_ref = code_units "p";
        idempotency_key = code_units "k";
        request_fingerprint = [];
      })
      a_request a_response refl validated refl refl refl refl

-- The stores of one subscription, whose first drip is due at 7, and those after its pickup.
abbrev pub entitled : Stores
entitled = record empty_stores {
  database = record empty_stores.database {
    entitlements =
        record {
          entitlement_id = code_units "a";
          receipt_hash = code_units "sub";
          drip_interval_seconds = 100;
          next_drip_at = 7;
          drips_issued = 0;
        }
        ∷ [];
  };
}

-- What two pickups see before one of them claims the drip.
abbrev pub due_at_7 : Schedule
due_at_7 = record { id = code_units "a"; due = true; next_drip_at = 7; interval_seconds = 100 }

abbrev pub picked_up_once : Stores
picked_up_once = (issue small_config some_services (drip_grant due_at_7 8) none a_body entitled).1

pub recorded_once : length picked_up_once.issuance_records ≡ 1
unfolding issue credentials_issuer.Payment.RateLimiter.allow
    credentials_issuer.Payment.RateLimiter.within_budget
    credentials_issuer.Payment.RateLimiter.members credentials_issuer.Payment.RateLimiter.slide
    credentials_issuer.Payment.RateLimiter.scores_of
    credentials_issuer.Issuance.Request.validate_bundle_request
    credentials_issuer.Prelude.Json.lookup_field credentials_issuer.Prelude.◌===◌
    credentials_issuer.Issuance.Request.blank_texts
    credentials_issuer.Errors.Base64.decode_strict_base64
    credentials_issuer.Issuance.Signing.sign_bundle credentials_issuer.Issuance.Service.deliver
    credentials_issuer.Issuance.Service.given_key
    credentials_issuer.Issuance.Service.record_issuance
    credentials_issuer.Issuance.Service.record_body credentials_issuer.Entitlements.Service.advance
    credentials_issuer.Entitlements.Uuid.same_uuid credentials_issuer.Entitlements.Uuid.lower_case
recorded_once = refl
