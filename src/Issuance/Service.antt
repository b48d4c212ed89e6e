-- ===== src/Issuance/Service.antt =====
-- issuance/issuance.service.ts. What the service asks of the other components in one call is the
-- record `Services`: the keyring's `usable`, the signer, SHA-256 of `node:crypto` (on the text
-- whose UTF-8 bytes are hashed), and the clocks of the rate limiter.
pub mod Atomic
pub mod Committed
pub mod Examples
pub mod Keeps
pub mod Purchases
pub mod Retries
use credentials_issuer.Prelude.{
  ℕ, Bool, Option, none, some, ◌∷◌, Str, length, ltb, ◌===◌, ◌&&◌, find, count_where, any,
  if◌then◌else◌,
}
use credentials_issuer.Prelude.Json.{Json}
use credentials_issuer.Prelude.Result.{
  Result, ok, err, Failure, exception, unique_violation, idempotency_conflict, rate_limited,
  wrong_epoch,
}
use credentials_issuer.Effect.{Action, pure, throw, lift, require, transaction, catch, ◌>>=◌, ◌>>◌}
use credentials_issuer.Config.{IssuerConfig}
use credentials_issuer.Database.{IdempotencyRecord, Stores}
use credentials_issuer.Payment.RateLimiter.{allow}
use credentials_issuer.Accounting.EpochCounters.{record_bundle_paid, record_signatures_issued}
use credentials_issuer.Issuance.Request.{BundleRequest, validate_bundle_request}
use credentials_issuer.Issuance.Signing.{BundleResponse, sign_bundle, fingerprint_request}

-- `consume` is `none` on the rail whose grant needs no bookkeeping.
pub record IssuanceGrant : Type 0 where
  pub reference : Str
  pub consume : Option (Action Stores (Unit {0}))

pub record Services : Type 0 where
  pub usable : Str → Bool
  pub sign_blinded_blank : Str → Str → Result Str
  pub sha256 : Str → Str
  pub now : ℕ
  pub redis_now : ℕ

pub has_key : Str → Str → IdempotencyRecord → Bool
has_key reference key row = row.payment_ref === reference && row.idempotency_key === key

-- `findOneBy` and `countBy` on the idempotency table.
pub claimed : Str → Str → Stores → Option IdempotencyRecord
unfolding has_key
claimed reference key s = find (has_key reference key) s.idempotency_records

unfoldable pub is_replay : Str → Str → Stores → Bool
unfolding has_key
is_replay reference key s = ltb 0 (count_where (has_key reference key) s.idempotency_records)

-- The insert of an idempotency record, which its primary key may refuse.
insert_idempotency : Str → Str → Str → Action Stores (Unit {0})
insert_idempotency reference key fingerprint s =
    if any (has_key reference key) s.idempotency_records then (err unique_violation, s) else (
      ok tt,
      record s {
        database = record s.database {
          idempotency_records =
              record {
                payment_ref = reference;
                idempotency_key = key;
                request_fingerprint = fingerprint;
              }
              ∷ s.database.idempotency_records;
        };
      },
    )

insert_issuance : Str → Str → Action Stores (Unit {0})
insert_issuance reference epoch s = (
  ok tt,
  record s {
    database = record s.database {
      issuance_records =
          record { payment_ref = reference; epoch = epoch; bundle_count = 1 }
          ∷ s.database.issuance_records;
    };
  },
)

unfoldable pub consume_grant : Option (Action Stores (Unit {0})) → Action Stores (Unit {0})
consume_grant none = pure tt
consume_grant (some consume) = consume

claim_key : Str → Option (Str × Str) → Action Stores (Unit {0})
claim_key reference none = pure tt
claim_key reference (some (key, fingerprint)) = insert_idempotency reference key fingerprint

-- `if (!idempotencyKey)`: an absent header and an empty one.
pub given_key : Option Str → Option Str
given_key (some (c ∷ s)) = some (c ∷ s)
given_key _ = none

-- The body of the transaction of `record`.
pub record_body :
    ℕ
    → IssuanceGrant
    → BundleRequest
    → BundleResponse
    → Option (Str × Str)
    → Action Stores (Unit {0})
unfolding claim_key insert_idempotency insert_issuance consume_grant has_key
record_body bundle_size grant request response idempotency = do
  claim_key grant.reference idempotency
  insert_issuance grant.reference request.epoch
  record_bundle_paid request.epoch bundle_size
  record_signatures_issued request.epoch (length response.blind_signatures) bundle_size
  consume_grant grant.consume

record_issuance :
    ℕ
    → IssuanceGrant
    → BundleRequest
    → BundleResponse
    → Option (Str × Str)
    → Action Stores (Unit {0})
record_issuance bundle_size grant request response idempotency =
    transaction (record_body bundle_size grant request response idempotency)

-- A claimed key: the same request is a replay, another one a conflict.
replay_or_conflict : Str → BundleResponse → Option IdempotencyRecord → Action Stores BundleResponse
replay_or_conflict fingerprint response none = throw (exception idempotency_conflict)
replay_or_conflict fingerprint response (some existing) =
    if existing.request_fingerprint === fingerprint
    then pure response
    else throw (exception idempotency_conflict)

-- `if (!isUniqueViolation(error)) throw error`, and then the claimed key.
on_record_error : Str → Str → Str → BundleResponse → Failure → Action Stores BundleResponse
on_record_error reference key fingerprint response unique_violation s =
    replay_or_conflict fingerprint response (claimed reference key s) s
on_record_error reference key fingerprint response e s = (err e, s)

-- From the signed bundle on.
deliver :
    ℕ
    → (Str → Str)
    → IssuanceGrant
    → Option Str
    → BundleRequest
    → BundleResponse
    → Action Stores BundleResponse
deliver bundle_size sha256 grant none request response = do
  record_issuance bundle_size grant request response none
  pure response
deliver bundle_size sha256 grant (some key) request response =
    let fingerprint = fingerprint_request sha256 grant.reference request in
    catch
      (do
        record_issuance bundle_size grant request response (some (key, fingerprint))
        pure response)
      (on_record_error grant.reference key fingerprint response)

pub issue :
    IssuerConfig → Services → IssuanceGrant → Option Str → Json → Action Stores BundleResponse
issue config services grant idempotency_key body = do
  allowed ← allow config services.now services.redis_now grant.reference
  require allowed (exception rate_limited)
  request ← lift (validate_bundle_request config body)
  require (services.usable request.epoch) (exception wrong_epoch)
  response ← lift (sign_bundle services.sign_blinded_blank request)
  deliver config.bundle_size services.sha256 grant (given_key idempotency_key) request response
