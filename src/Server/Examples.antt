-- ===== src/Server/Examples.antt =====
-- Tests of the calls on concrete inputs: a paid purchase on empty stores.
use credentials_issuer.Prelude.{
  ◌≡◌, ◌≢◌, ◌≤◌, refl, ap, none, [], ◌∷◌, length, count_where, arith, true, Bool, Option, some, Str,
  code_units, map,
}
use credentials_issuer.Prelude.Json.{Json, obj, str, field, end}
use credentials_issuer.Prelude.Result.{ok, Result}
use credentials_issuer.Database.{Database, Stores, empty_stores}
use credentials_issuer.Errors.Base64.{Bytes}
use credentials_issuer.Accounting.Reconciliation.{reconcile, reconcile_row}
use credentials_issuer.Bundles.Service.{purchase}
use credentials_issuer.Bundles.Service.Admission.{Purchase, purchase-Purchase}
use credentials_issuer.Issuance.Signing.{BundleResponse}
use credentials_issuer.Server.{purchased, registered, Reachable, start, after, at_once, called}
use credentials_issuer.Server.Drips.{drip_once}
use credentials_issuer.Issuance.Service.{issue}
use credentials_issuer.Issuance.Service.Examples.{entitled, due_at_7, picked_up_once, recorded_once}
use credentials_issuer.Entitlements.Service.{has_id, drip_grant, register}
use credentials_issuer.Server.Invariant.{IsSound, Reachable-IsSound, Reachable-quiet}
use credentials_issuer.Examples.{small_config, some_services, a_body}

abbrev a_claim_json : Json
a_claim_json = obj (
    field (code_units "payment_ref") (str (code_units "p")) (
      field (code_units "amount") (str (code_units "1")) (
        field (code_units "route_id") (str (code_units "r"))
          (field (code_units "proxy_sig") (str (code_units "AA")) end))))

abbrev decode_any : Str → Option Json
decode_any text = some a_claim_json

abbrev accept_any : Option (Bytes → Str → Bool)
accept_any = some (λ bytes payload. true)

abbrev a_receipt : Json
a_receipt = obj (field (code_units "receipt") (str (code_units " sub ")) end)

abbrev a_purchase : Result BundleResponse × Stores
a_purchase =
    purchase small_config decode_any accept_any some_services (some (code_units "c"))
      (some (code_units "k")) a_body empty_stores

bought : Reachable small_config a_purchase.1
bought = after start (
    purchased decode_any accept_any some_services (some (code_units "c")) (some (code_units "k"))
      a_body)

Reachable-IsSound_example : IsSound 2 a_purchase.1.database
Reachable-IsSound_example = Reachable-IsSound small_config a_purchase.1 bought

Reachable-quiet_example : reconcile a_purchase.1 ≡ (
  ok (map (reconcile_row a_purchase.1.issuance_records) a_purchase.1.epoch_counters),
  a_purchase.1,
)
Reachable-quiet_example = Reachable-quiet small_config a_purchase.1 bought

purchase-Purchase_example :
    Purchase small_config decode_any accept_any some_services
      (some (code_units "c"))
      (some (code_units "k"))
      a_body
      empty_stores
      a_purchase
purchase-Purchase_example =
    purchase-Purchase small_config decode_any accept_any some_services (some (code_units "c"))
      (some (code_units "k")) a_body empty_stores

one_row : count_where (has_id (code_units "a")) entitled.entitlements ≤ 1
unfolding has_id credentials_issuer.Entitlements.Uuid.same_uuid credentials_issuer.Prelude.◌===◌
    credentials_issuer.Entitlements.Uuid.lower_case
one_row = omega arith

picked_up_once-changed : picked_up_once.database ≢ entitled.database
picked_up_once-changed same =
    let none_recorded : length picked_up_once.issuance_records ≡ 0 =
      ap (λ (d : Database). length d.issuance_records) same in
    cc (none_recorded, recorded_once)

-- A second registration and a purchase come between the two pickups.
abbrev between : Stores
between =
    (purchase small_config decode_any accept_any some_services (some (code_units "c"))
      (some (code_units "k")) a_body
      (register small_config (λ text. text) (code_units "a") 8 a_receipt picked_up_once).1).1

drip_once_example :
    (issue small_config some_services (drip_grant due_at_7 9) none a_body between).1.database
    ≡ between.database
drip_once_example =
    drip_once small_config some_services some_services due_at_7 due_at_7 8 9 none none a_body a_body
      entitled between one_row picked_up_once-changed
      (called (called at_once (registered (λ text. text) (code_units "a") 8 a_receipt)) (
        purchased decode_any accept_any some_services (some (code_units "c"))
          (some (code_units "k")) a_body))
      refl (omega arith)
