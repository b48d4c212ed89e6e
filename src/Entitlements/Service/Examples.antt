-- ===== src/Entitlements/Service/Examples.antt =====
-- Tests of the entitlements on concrete inputs.
use credentials_issuer.Prelude.{
  ℕ, ◌≡◌, refl, some, true, none, [], ◌∷◌, Str, code_units, arith, ◌≤◌, count_where, Option,
}
use credentials_issuer.Prelude.Json.{Json, obj, str, field, end}
use credentials_issuer.Prelude.Result.{ok}
use credentials_issuer.Database.{Stores, empty_stores}
use credentials_issuer.Entitlements.Service.{
  EntitlementResponse, Schedule, has_id, register, advance, drip_grant,
}
use credentials_issuer.Entitlements.Service.Registration.{register_twice}
use credentials_issuer.Examples.{small_config}

abbrev a_receipt : Json
a_receipt = obj (field (code_units "receipt") (str (code_units " sub ")) end)

abbrev no_hash : Str → Str
no_hash text = text

abbrev entitled : ℕ → Stores
entitled next = record empty_stores {
  database = record empty_stores.database {
    entitlements =
        record {
          entitlement_id = code_units "a";
          receipt_hash = code_units "sub";
          drip_interval_seconds = 100;
          next_drip_at = next;
          drips_issued = 0;
        }
        ∷ [];
  };
}

abbrev a_response : EntitlementResponse
a_response = record { entitlement_id = code_units "a"; next_drip_at = 7 }

registered_once :
    register small_config no_hash (code_units "a") 7 a_receipt empty_stores
    ≡ (ok a_response, entitled 7)
unfolding register credentials_issuer.Entitlements.Receipt.validate_receipt
    credentials_issuer.Prelude.Json.lookup_field credentials_issuer.Prelude.◌===◌
    credentials_issuer.Entitlements.Service.insert_entitlement
    credentials_issuer.Entitlements.Service.find_by_receipt
registered_once = refl

register_twice_example :
    register small_config no_hash (code_units "b") 9 a_receipt (entitled 7)
    ≡ (ok a_response, entitled 7)
register_twice_example =
    register_twice small_config no_hash (code_units "a") (code_units "b") 7 9 a_receipt empty_stores
      (entitled 7) a_response registered_once
