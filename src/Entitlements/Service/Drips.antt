-- ===== src/Entitlements/Service/Drips.antt =====
-- When a drip is due, and what its pickup consumes.
use credentials_issuer.Prelude.{
  ℕ, ◌≡◌, ◌≤◌, ◌<◌, ◌+◌, ◌*◌, refl, sym, ap, subst, Bool, true, false, Option, some, List, [], ◌∷◌,
  Str, arith, leb, any, All, count_where, ◌&&◌, inl, inr, Bool-cases, find, none, ◌||◌,
  Option-cases,
}
use credentials_issuer.Prelude.Json.{Json}
use credentials_issuer.Prelude.Result.{Result, ok, err, exception, not_due}
use credentials_issuer.Effect.{Action}
use credentials_issuer.Config.{IssuerConfig}
use credentials_issuer.Database.{Database, Entitlement, Stores}
use credentials_issuer.Issuance.Service.{Services, given_key, consume_grant}
use credentials_issuer.Issuance.Service.Atomic.{Issued, idempotency_claim}
use credentials_issuer.Issuance.Service.Committed.{
  KeepsLedger, record_body-consumed, before_consume,
}
use credentials_issuer.Issuance.Signing.{BundleResponse}
use credentials_issuer.Entitlements.Service.{
  has_id, claim_drip, advance, Schedule, drip_grant, schedule, found_schedule, replays,
  admit_pickup,
}
use credentials_issuer.Entitlements.Uuid.{is_uuid}

-- The rows of an entitlement are due later than `now`.
abbrev pub NotDue : Str → ℕ → List Entitlement → Type 0
NotDue id now es = All (λ (e : Entitlement). has_id id e ≡ true → now < e.next_drip_at) es

-- No row of the entitlement is due: nothing is claimed.
claim_drip-NotDue :
    (id : Str) (interval now : ℕ) (es : List Entitlement)
    → NotDue id now es
    → claim_drip id interval now es ≡ (es, false)
unfolding claim_drip
claim_drip-NotDue id interval now [] h = refl
claim_drip-NotDue id interval now (e ∷ es) (he, h) = elim (Bool-cases (has_id id e)) [
  | inl here ↦ ground (arith, claim_drip-NotDue id interval now es h, he here)
  | inr other ↦ rw (other, claim_drip-NotDue id interval now es h)
]

-- A row of the entitlement was due exactly if one was changed.
abbrev pub is_due : Str → ℕ → List Entitlement → Bool
is_due id now es = any (λ e. has_id id e && leb e.next_drip_at now) es

claim_drip-due :
    (id : Str) (interval now : ℕ) (es : List Entitlement)
    → (claim_drip id interval now es).1 ≡ is_due id now es
unfolding claim_drip
claim_drip-due id interval now [] = refl
claim_drip-due id interval now (e ∷ es) =
    elim (Bool-cases (has_id id e && leb e.next_drip_at now)) [
      | inl due ↦ rw due
      | inr later ↦ rw later (claim_drip-due id interval now es)
    ]

no_rows :
    (id : Str) (now : ℕ) (es : List Entitlement) → count_where (has_id id) es ≡ 0 → NotDue id now es
no_rows id now [] h = tt
no_rows id now (e ∷ es) h = elim (Bool-cases (has_id id e)) [
  | inl here ↦ ground arith
  | inr other ↦ (λ here. cc (here, other), no_rows id now es (ground arith))
]

-- Once a drip is claimed, the next is an interval away.
claim_drip-NotDue_after :
    (id : Str) (interval now later : ℕ) (es : List Entitlement)
    → count_where (has_id id) es ≤ 1
    → (claim_drip id interval now es).1 ≡ true
    → later < now + interval * 1000
    → NotDue id later (claim_drip id interval now es).0
unfolding claim_drip
claim_drip-NotDue_after id interval now later [] one claimed early = tt
claim_drip-NotDue_after id interval now later (e ∷ es) one claimed early =
    elim (Bool-cases (has_id id e)) [
      | inr other ↦
          let unchanged = claim_drip-NotDue_after id interval now later es (ground arith) in
          let claimed_later : (claim_drip id interval now es).1 ≡ true = ground arith in
          rw other ((λ here. cc (here, other)), unchanged claimed_later early)
      | inl here ↦
          let none_left = no_rows id now es (ground arith) in
          let rest = claim_drip-NotDue id interval now es none_left in
          elim (Bool-cases (leb e.next_drip_at now)) [
            | inl due ↦ rw (here, due, rest) ((λ same. early), no_rows id later es (ground arith))
            | inr not_yet ↦ ground arith
          ]
    ]

advance-NotDue :
    (id : Str) (interval now : ℕ) (s : Stores)
    → NotDue id now s.entitlements
    → advance id interval now s ≡ (err (exception not_due), s)
unfolding advance
advance-NotDue id interval now s h = rw (claim_drip-NotDue id interval now s.entitlements h)

pub advance-NotDue_after :
    (id : Str) (interval now later : ℕ) (s t : Stores)
    → count_where (has_id id) s.entitlements ≤ 1
    → advance id interval now s ≡ (ok tt, t)
    → later < now + interval * 1000
    → NotDue id later t.entitlements
unfolding advance
advance-NotDue_after id interval now later s t one claimed early =
    elim (Bool-cases (claim_drip id interval now s.entitlements).1) [
      | inr unchanged ↦ ground arith
      | inl changed ↦
          let rows : (claim_drip id interval now s.entitlements).0 ≡ t.entitlements =
            ground (arith, changed) in
          subst (NotDue id later) rows
            (claim_drip-NotDue_after id interval now later s.entitlements one changed early)
    ]

-- What does not depend on the entitlements is kept.
advance-keeps {ℓ} :
    {A : Type ℓ} (id : Str) (interval now : ℕ) (s : Stores) (consume : Action Stores (Unit {0}))
    → some (advance id interval now) ≡ some consume
    → (f : Database → A)
    → ((d : Database) (rows : List Entitlement) → f (record d { entitlements = rows }) ≡ f d)
    → f (consume s).1.database ≡ f s.database
unfolding advance
advance-keeps id interval now s consume e f h =
    let called : consume s ≡ advance id interval now s = cc e in
    elim (Bool-cases (claim_drip id interval now s.entitlements).1) [
      | inl changed ↦ ground (arith, h s.database (claim_drip id interval now s.entitlements).0)
      | inr unchanged ↦ ground arith
    ]

-- The pickup of a drip that is not due can only fail or replay.
pub NotDue-unchanged :
    (config : IssuerConfig) (services : Services) (found : Schedule) (later : ℕ) (key : Option Str)
    (body : Json) (u : Stores) (p : Result BundleResponse × Stores)
    → NotDue found.id later u.entitlements
    → Issued config services (drip_grant found later) key body u p
    → p.1.database ≡ u.database
unfolding consume_grant
NotDue-unchanged config services found later key body u p h (Issued.failed e f same) = same
NotDue-unchanged config services found later key body u p h
      (Issued.replayed request r used row valid usable signed given have print g same) =
    same
NotDue-unchanged config services found later key body u p h
      (Issued.recorded request r counted valid usable signed same committed g) =
    let grant = drip_grant found later in
    let claim = idempotency_claim services.sha256 grant.reference request (given_key key) in
    let kept = subst (NotDue found.id later) (sym (ap (λ (d : Database). d.entitlements) same)) h in
    let refused =
      advance-NotDue found.id found.interval_seconds later
        (before_consume config.bundle_size grant request r claim counted) kept in
    let consumed =
      record_body-consumed config.bundle_size grant request r counted p.1 claim committed in
    cc (refused, consumed)

-- What a pickup consumes does not touch the tables of the purchase.
pub drip_grant-KeepsLedger : (found : Schedule) (now : ℕ) → KeepsLedger (drip_grant found now)
drip_grant-KeepsLedger found now = record {
  idempotency_records = λ consume s e.
      advance-keeps found.id found.interval_seconds now s consume e (λ d. d.idempotency_records)
        (λ d rows. refl);
  issuance_records = λ consume s e.
      advance-keeps found.id found.interval_seconds now s consume e (λ d. d.issuance_records)
        (λ d rows. refl);
  epoch_counters = λ consume s e.
      advance-keeps found.id found.interval_seconds now s consume e (λ d. d.epoch_counters)
        (λ d rows. refl);
}

-- The checks of a pickup only read.
pub admit_pickup-same :
    (seen_at : ℕ) (entitlement_id key : Option Str) (s : Stores)
    → (admit_pickup seen_at entitlement_id key s).1 ≡ s
unfolding admit_pickup schedule found_schedule
admit_pickup-same seen_at none key s = refl
admit_pickup-same seen_at (some id) key s = elim (Bool-cases (is_uuid id)) [
  | inr bad ↦ rw bad
  | inl good ↦ elim (Option-cases (find (has_id id) s.entitlements)) [
    | inl unknown ↦ rw (good, unknown)
    | inr (e, known) ↦ elim (Bool-cases (replays id key s || leb e.next_drip_at seen_at)) [
      | inl due ↦ rw (good, known, due)
      | inr later ↦ rw (good, known, later)
    ]
  ]
]
