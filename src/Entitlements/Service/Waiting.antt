-- ===== src/Entitlements/Service/Waiting.antt =====
-- An entitlement whose drip is not due for a while.
use credentials_issuer.Prelude.{
  ℕ, ◌≡◌, ◌≤◌, ◌<◌, ◌+◌, ◌*◌, refl, subst, true, false, List, [], ◌∷◌, Str, arith, any, count_where,
  inl, inr, Bool-cases, leb, ◌&&◌,
}
use credentials_issuer.Prelude.Result.{ok}
use credentials_issuer.Database.{Entitlement, Stores}
use credentials_issuer.Entitlements.Service.{
  has_id, has_receipt, claim_drip, advance, insert_entitlement,
}
use credentials_issuer.Entitlements.Service.Drips.{NotDue, advance-NotDue_after}
use credentials_issuer.Entitlements.Service.Unique.{none_same}

-- The entitlement is there, and not due before `later` has passed.
abbrev pub IsWaiting : Str → ℕ → List Entitlement → Type 0
IsWaiting id later es = NotDue id later es × (any (has_id id) es ≡ true)

claim_drip-NotDue_kept :
    (id other : Str) (interval now later : ℕ) (es : List Entitlement)
    → NotDue id later es
    → NotDue id later (claim_drip other interval now es).0
unfolding claim_drip has_id
claim_drip-NotDue_kept id other interval now later [] h = tt
claim_drip-NotDue_kept id other interval now later (e ∷ es) (he, h) =
    let rest = claim_drip-NotDue_kept id other interval now later es h in
    elim (Bool-cases (has_id other e && leb e.next_drip_at now)) [
      | inr kept ↦ rw kept (he, rest)
      | inl due ↦ rw due ((λ here. ground (arith, due, he here)), rest)
    ]

claim_drip-any :
    (id other : Str) (interval now : ℕ) (es : List Entitlement)
    → any (has_id id) (claim_drip other interval now es).0 ≡ any (has_id id) es
unfolding claim_drip has_id
claim_drip-any id other interval now [] = refl
claim_drip-any id other interval now (e ∷ es) =
    ground (arith, claim_drip-any id other interval now es)

pub advance-IsWaiting :
    (id other : Str) (interval now later : ℕ) (s : Stores)
    → IsWaiting id later s.entitlements
    → IsWaiting id later (advance other interval now s).1.entitlements
unfolding advance
advance-IsWaiting id other interval now later s (late, there) =
    elim (Bool-cases (claim_drip other interval now s.entitlements).1) [
      | inr same ↦ rw same (late, there)
      | inl changed ↦ rw changed (
        claim_drip-NotDue_kept id other interval now later s.entitlements late,
        rw (claim_drip-any id other interval now s.entitlements) there,
      )
    ]

claim_drip-there :
    (id : Str) (interval now : ℕ) (es : List Entitlement)
    → (claim_drip id interval now es).1 ≡ true
    → any (has_id id) es ≡ true
unfolding claim_drip
claim_drip-there id interval now [] h = cc h
claim_drip-there id interval now (e ∷ es) h = elim (Bool-cases (has_id id e)) [
  | inl here ↦ rw here refl
  | inr other ↦ rw other (claim_drip-there id interval now es (ground arith))
]

pub advance-IsWaiting_after :
    (id : Str) (interval now later : ℕ) (s t : Stores)
    → count_where (has_id id) s.entitlements ≤ 1
    → advance id interval now s ≡ (ok tt, t)
    → later < now + interval * 1000
    → IsWaiting id later t.entitlements
unfolding advance
advance-IsWaiting_after id interval now later s t one claimed early = (
  advance-NotDue_after id interval now later s t one claimed early,
  elim (Bool-cases (claim_drip id interval now s.entitlements).1) [
    | inr unchanged ↦ ground arith
    | inl changed ↦
        let rows : (claim_drip id interval now s.entitlements).0 ≡ t.entitlements =
          ground (arith, changed) in
        subst (λ es. any (has_id id) es ≡ true) rows
          (rw (claim_drip-any id id interval now s.entitlements)
            (claim_drip-there id interval now s.entitlements changed))
  ],
)

not_there :
    (id : Str) (es : List Entitlement) → count_where (has_id id) es ≡ 0 → any (has_id id) es ≡ false
not_there id [] h = refl
not_there id (e ∷ es) h = ground (arith, not_there id es)

pub insert-IsWaiting :
    (id : Str) (later : ℕ) (e : Entitlement) (s : Stores)
    → IsWaiting id later s.entitlements
    → IsWaiting id later (insert_entitlement e s).1.entitlements
unfolding insert_entitlement
insert-IsWaiting id later e s (late, there) =
    elim (Bool-cases (any (has_receipt e.receipt_hash) s.entitlements)) [
      | inl known ↦ rw known (late, there)
      | inr new ↦ elim (Bool-cases (any (has_id e.entitlement_id) s.entitlements)) [
        | inl taken ↦ rw (new, taken) (late, there)
        | inr free ↦
            let other : has_id id e ≡ true → later < e.next_drip_at = λ here.
              cc (there, not_there id s.entitlements (none_same id e s.entitlements here free)) in
            rw (new, free) ((other, late), ground (arith, there))
      ]
    ]
