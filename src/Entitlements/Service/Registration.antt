-- ===== src/Entitlements/Service/Registration.antt =====
-- Registering is idempotent in the receipt.
use credentials_issuer.Prelude.{
  ℕ, ◌≡◌, refl, sym, ap, ◌∙◌, subst, Bool, true, some, List, [], ◌∷◌, Str, arith, ◌⊎◌, inl, inr,
  find, any, code_units, Bool-cases, Option-cases,
}
use credentials_issuer.Prelude.Json.{Json, is_object, get}
use credentials_issuer.Prelude.Result.{ok, Result-cases}
use credentials_issuer.Config.{IssuerConfig}
use credentials_issuer.Database.{Entitlement, Stores}
use credentials_issuer.Entitlements.Receipt.{validate_receipt}
use credentials_issuer.Entitlements.Service.{
  EntitlementResponse, has_receipt, insert_entitlement, find_by_receipt, registered, register,
}

any_of_find :
    (p : Entitlement → Bool) (es : List Entitlement) (e : Entitlement)
    → find p es ≡ some e
    → any p es ≡ true
any_of_find p [] e h = cc
any_of_find p (x ∷ es) e h = elim (Bool-cases (p x)) [
  | inl passes ↦ rw passes
  | inr fails ↦ rw fails (any_of_find p es e (ground arith))
]

abbrev new_row : IssuerConfig → (Str → Str) → Str → ℕ → Str → Entitlement
new_row config sha256 uuid now subscription = record {
  entitlement_id = uuid;
  receipt_hash = sha256 subscription;
  drip_interval_seconds = config.entitlement_drip_interval_seconds;
  next_drip_at = now;
  drips_issued = 0;
}

-- What a registration that returned has left behind: the row of the receipt, which it returned.
registered_row :
    (config : IssuerConfig) (sha256 : Str → Str) (uuid : Str) (now : ℕ) (body : Json) (s t : Stores)
    (r : EntitlementResponse)
    → register config sha256 uuid now body s ≡ (ok r, t)
    → (subscription : Str) × (e : Entitlement) × (is_object body ≡ true)
      × (validate_receipt (get body (code_units "receipt")) ≡ ok subscription)
      × (find_by_receipt (sha256 subscription) t ≡ some e)
      × (r ≡ record { entitlement_id = e.entitlement_id; next_drip_at = e.next_drip_at })
unfolding register registered
registered_row config sha256 uuid now body s t r h = elim (Bool-cases (is_object body)) [
  | inr bad ↦ ground arith
  | inl object ↦ elim (Result-cases (validate_receipt (get body (code_units "receipt")))) [
    | inr (f, bad) ↦ ground arith
    | inl (subscription, valid) ↦
        let row = new_row config sha256 uuid now subscription in
        elim (Result-cases (insert_entitlement row s).0) [
          | inr (f, bad) ↦ ground arith
          | inl (u, good) ↦
              elim (Option-cases
                (find_by_receipt (sha256 subscription) (insert_entitlement row s).1)) [
                  | inl gone ↦ ground arith
                  | inr (e, found) ↦
                      let ends : register config sha256 uuid now body s ≡ (
                        ok (record {
                          entitlement_id = e.entitlement_id;
                          next_drip_at = e.next_drip_at;
                        }),
                        (insert_entitlement row s).1,
                      ) =
                        rw (object, valid, good, found) refl in
                      let kept : (insert_entitlement row s).1 ≡ t = cc (h, ends) in
                      (
                        subscription,
                        e,
                        object,
                        valid,
                        subst (λ u. find_by_receipt (sha256 subscription) u ≡ some e) kept found,
                        cc (h, ends),
                      )
                ]
        ]
  ]
]

-- A registration stores an entitlement or nothing.
pub register-stores :
    (config : IssuerConfig) (sha256 : Str → Str) (uuid : Str) (now : ℕ) (body : Json) (s : Stores)
    → ((register config sha256 uuid now body s).1 ≡ s)
      ⊎ ((e : Entitlement) × ((register config sha256 uuid now body s).1
            ≡ (insert_entitlement e s).1))
unfolding register registered
register-stores config sha256 uuid now body s = elim (Bool-cases (is_object body)) [
  | inr bad ↦ inl (rw bad)
  | inl object ↦ elim (Result-cases (validate_receipt (get body (code_units "receipt")))) [
    | inr (f, bad) ↦ inl (rw (object, bad))
    | inl (subscription, valid) ↦
        let row = new_row config sha256 uuid now subscription in
        inr (
          row,
          elim (Result-cases (insert_entitlement row s).0) [
            | inr (f, bad) ↦ rw (object, valid, bad)
            | inl (u, good) ↦
                elim (Option-cases
                  (find_by_receipt (sha256 subscription) (insert_entitlement row s).1)) [
                    | inl gone ↦ rw (object, valid, good, gone)
                    | inr (e, found) ↦ rw (object, valid, good, found)
                  ]
          ],
        )
  ]
]

again :
    (config : IssuerConfig) (sha256 : Str → Str) (uuid : Str) (now : ℕ) (body : Json) (t : Stores)
    (subscription : Str) (e : Entitlement)
    → is_object body ≡ true
    → validate_receipt (get body (code_units "receipt")) ≡ ok subscription
    → find_by_receipt (sha256 subscription) t ≡ some e
    → register config sha256 uuid now body t
      ≡ (ok (record { entitlement_id = e.entitlement_id; next_drip_at = e.next_drip_at }), t)
unfolding register registered insert_entitlement find_by_receipt
again config sha256 uuid now body t subscription e object valid found =
    rw
      (object, valid, any_of_find (has_receipt (sha256 subscription)) t.entitlements e found, found)

-- Presenting a receipt again returns the entitlement that the first call returned, whatever
-- identifier and clock the second call has, and changes nothing.
pub register_twice :
    (config : IssuerConfig) (sha256 : Str → Str) (uuid uuid' : Str) (now now' : ℕ) (body : Json)
    (s t : Stores) (r : EntitlementResponse)
    → register config sha256 uuid now body s ≡ (ok r, t)
    → register config sha256 uuid' now' body t ≡ (ok r, t)
register_twice config sha256 uuid uuid' now now' body s t r h =
    let (subscription, e, object, valid, found, same) =
      registered_row config sha256 uuid now body s t r h in
    again config sha256 uuid' now' body t subscription e object valid found
    ∙ ap (λ x. (ok x, t)) (sym same)
