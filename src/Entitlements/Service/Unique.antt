-- ===== src/Entitlements/Service/Unique.antt =====
-- Rows with an identifier, in whatever cases of letters.
use credentials_issuer.Prelude.{
  ◌≡◌, ◌≤◌, ◌∙◌, sym, refl, true, false, List, [], ◌∷◌, Str, arith, any, count_where, eq-text,
  eq-text-true, inl, inr, Bool-cases,
}
use credentials_issuer.Database.{Entitlement}
use credentials_issuer.Entitlements.Service.{has_id}
use credentials_issuer.Entitlements.Uuid.{same_uuid}

-- The same identifier, in other cases of letters or not.
has_id_trans :
    (id : Str) (e x : Entitlement)
    → has_id id e ≡ true
    → has_id id x ≡ true
    → has_id e.entitlement_id x ≡ true
unfolding has_id same_uuid
has_id_trans id e x he hx = (eq-text _ _).1 (eq-text-true hx ∙ sym (eq-text-true he))

pub none_same :
    (id : Str) (e : Entitlement) (es : List Entitlement)
    → has_id id e ≡ true
    → any (has_id e.entitlement_id) es ≡ false
    → count_where (has_id id) es ≡ 0
none_same id e [] here free = refl
none_same id e (x ∷ xs) here free = ground (arith, none_same id e xs here, has_id_trans id e x here)

pub one_more :
    (e : Entitlement) (es : List Entitlement)
    → any (has_id e.entitlement_id) es ≡ false
    → ((id : Str) → count_where (has_id id) es ≤ 1)
    → (id : Str) → count_where (has_id id) (e ∷ es) ≤ 1
one_more e es free unique id = elim (Bool-cases (has_id id e)) [
  | inl here ↦ ground (arith, none_same id e es here free)
  | inr other ↦ ground (arith, unique id)
]
