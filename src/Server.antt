-- ===== src/Server.antt =====
-- The calls that reach the stores, as steps: the handlers of the controllers
-- (apps/backend/src/bundles/bundles.controller.ts, entitlements/entitlements.controller.ts) and the
-- repeated job (accounting/reconciliation.processor.ts). A step is a whole call: what a call writes to
-- the database it writes in one transaction or statement. Every call has its own clocks, keyring,
-- signer and hash, so that a step allows for any change of these between two calls.
pub mod Drips
mod Examples
pub mod Invariant
use credentials_issuer.Prelude.{ℕ, Bool, Option, Str}
use credentials_issuer.Prelude.Json.{Json}
use credentials_issuer.Config.{IssuerConfig}
use credentials_issuer.Database.{Stores, empty_stores}
use credentials_issuer.Errors.Base64.{Bytes}
use credentials_issuer.Issuance.Service.{Services, issue}
use credentials_issuer.Accounting.Reconciliation.{reconcile}
use credentials_issuer.Bundles.Service.{purchase}
use credentials_issuer.Entitlements.Service.{Schedule, drip_grant, register, pickup}

pub data Step (config : IssuerConfig) (s : Stores) : Stores → Type 0 where
  purchased :
      (decode_json : Str → Option Json) (verify_signature : Option (Bytes → Str → Bool))
      (services : Services) (header key : Option Str) (body : Json)
      → Step config s (purchase config decode_json verify_signature services header key body s).1
  registered :
      (sha256 : Str → Str) (uuid : Str) (now : ℕ) (body : Json)
      → Step config s (register config sha256 uuid now body s).1
  picked_up :
      (services : Services) (seen_at now : ℕ) (entitlement_id key : Option Str) (body : Json)
      → Step config s (pickup config services seen_at now entitlement_id key body s).1
  reconciled : Step config s (reconcile s).1

-- The stores that a sequence of calls leaves, from the empty ones on.
pub data Reachable (config : IssuerConfig) : Stores → Type 0 where
  start : Reachable config empty_stores
  after : {s t : Stores} → Reachable config s → Step config s t → Reachable config t

-- The stores that calls may leave after those of `s`. The issuance of a pickup can come after other
-- calls than its checks do, with whatever they found, as in another replica.
pub data Follows (config : IssuerConfig) (s : Stores) : Stores → Type 0 where
  at_once : Follows config s s
  called : {t u : Stores} → Follows config s t → Step config t u → Follows config s u
  issued :
      {t : Stores} (services : Services) (found : Schedule) (now : ℕ) (key : Option Str)
      (body : Json)
      → Follows config s t
      → Follows config s (issue config services (drip_grant found now) key body t).1
