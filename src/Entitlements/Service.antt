-- ===== src/Entitlements/Service.antt =====
-- entitlements/entitlements.service.ts. Times are milliseconds of the database clock: `now()` is the
-- start of the statement's transaction. The identifier of a new entitlement, `randomUUID()`, is an
-- argument.
pub mod Drips
mod Examples
pub mod Registration
pub mod Unique
pub mod Waiting
use credentials_issuer.Prelude.{
  ℕ, ◌+◌, ◌*◌, Bool, true, false, ◌||◌, ◌&&◌, Option, none, some, List, [], ◌∷◌, Str, code_units,
  leb, find, any, ◌===◌, if◌then◌else◌,
}
use credentials_issuer.Prelude.Json.{Json, is_object, get}
use credentials_issuer.Prelude.Result.{
  Result, ok, err, exception, error, unique_violation, request_invalid, entitlement_unknown,
  not_due,
}
use credentials_issuer.Effect.{Action, lift, throw, pure, gets, require, ◌>>=◌, ◌>>◌}
use credentials_issuer.Config.{IssuerConfig}
use credentials_issuer.Database.{Entitlement, Stores}
use credentials_issuer.Entitlements.Receipt.{validate_receipt}
use credentials_issuer.Entitlements.Uuid.{is_uuid, same_uuid}
use credentials_issuer.Issuance.Signing.{BundleResponse}
use credentials_issuer.Issuance.Service.{IssuanceGrant, Services, issue, is_replay}

pub record EntitlementResponse : Type 0 where
  pub entitlement_id : Str
  pub next_drip_at : ℕ

pub record Schedule : Type 0 where
  pub id : Str
  pub due : Bool
  pub next_drip_at : ℕ
  pub interval_seconds : ℕ

pub has_receipt : Str → Entitlement → Bool
has_receipt receipt_hash e = e.receipt_hash === receipt_hash

unfoldable pub has_id : Str → Entitlement → Bool
has_id id e = same_uuid e.entitlement_id id

-- `INSERT … ON CONFLICT (receipt_hash) DO NOTHING`; the primary key may refuse the row.
unfoldable pub insert_entitlement : Entitlement → Action Stores (Unit {0})
unfolding has_receipt has_id
insert_entitlement e s =
    if any (has_receipt e.receipt_hash) s.entitlements
    then (ok tt, s)
    else if any (has_id e.entitlement_id) s.entitlements
    then (err unique_violation, s)
    else (ok tt, record s { database = record s.database { entitlements = e ∷ s.entitlements } })

pub find_by_receipt : Str → Stores → Option Entitlement
unfolding has_receipt
find_by_receipt receipt_hash s = find (has_receipt receipt_hash) s.entitlements

registered : Option Entitlement → Action Stores EntitlementResponse
registered none =
    throw (error (code_units "entitlement disappeared immediately after registration"))
registered (some e) =
    pure (record { entitlement_id = e.entitlement_id; next_drip_at = e.next_drip_at })

unfoldable pub register :
    IssuerConfig → (Str → Str) → Str → ℕ → Json → Action Stores EntitlementResponse
unfolding registered
register config sha256 random_uuid now body = do
  require (is_object body) (exception request_invalid)
  subscription_id ← lift (validate_receipt (get body (code_units "receipt")))
  let receipt_hash = sha256 subscription_id
  insert_entitlement (record {
    entitlement_id = random_uuid;
    receipt_hash = receipt_hash;
    drip_interval_seconds = config.entitlement_drip_interval_seconds;
    next_drip_at = now;
    drips_issued = 0;
  })
  entitlement ← gets (find_by_receipt receipt_hash)
  registered entitlement

-- `UPDATE … WHERE entitlement_id = :id AND next_drip_at <= now()`: the rows, and whether one was
-- changed.
unfoldable pub claim_drip : Str → ℕ → ℕ → List Entitlement → List Entitlement × Bool
unfolding has_id
claim_drip id interval_seconds now [] = ([], false)
claim_drip id interval_seconds now (e ∷ es) =
    let (rest, changed) = claim_drip id interval_seconds now es in
    if has_id id e && leb e.next_drip_at now
    then (
      record e { next_drip_at = now + interval_seconds * 1000; drips_issued = e.drips_issued + 1 }
          ∷ rest,
      true,
    )
    else (e ∷ rest, changed)

unfoldable pub advance : Str → ℕ → ℕ → Action Stores (Unit {0})
unfolding claim_drip
advance id interval_seconds now s =
    let (rows, changed) = claim_drip id interval_seconds now s.entitlements in
    if changed
    then (ok tt, record s { database = record s.database { entitlements = rows } })
    else (err (exception not_due), s)

found_schedule : Str → ℕ → Option Entitlement → Result Schedule
found_schedule id now none = err (exception entitlement_unknown)
found_schedule id now (some e) = ok (record {
  id = id;
  due = leb e.next_drip_at now;
  next_drip_at = e.next_drip_at;
  interval_seconds = e.drip_interval_seconds;
})

pub schedule : Option Str → ℕ → Action Stores Schedule
unfolding found_schedule has_id
schedule none now s = (err (exception entitlement_unknown), s)
schedule (some id) now s =
    if is_uuid id
    then (found_schedule id now (find (has_id id) s.entitlements), s)
    else (err (exception entitlement_unknown), s)

replays : Str → Option Str → Stores → Bool
replays id none s = false
replays id (some key) s = is_replay id key s

-- The grant of a pickup; `now` is the start of the issuance transaction.
abbrev pub drip_grant : Schedule → ℕ → IssuanceGrant
drip_grant schedule now = record {
  reference = schedule.id;
  consume = some (advance schedule.id schedule.interval_seconds now);
}

-- The checks before the shared path, which read the schedule at `seen_at`.
pub admit_pickup : ℕ → Option Str → Option Str → Action Stores Schedule
unfolding replays
admit_pickup seen_at entitlement_id idempotency_key = do
  found ← schedule entitlement_id seen_at
  replay ← gets (replays found.id idempotency_key)
  require (replay || found.due) (exception not_due)
  pure found

unfoldable pub pickup :
    IssuerConfig → Services → ℕ → ℕ → Option Str → Option Str → Json → Action Stores BundleResponse
pickup config services seen_at now entitlement_id idempotency_key body = do
  found ← admit_pickup seen_at entitlement_id idempotency_key
  issue config services (drip_grant found now) idempotency_key body
