-- ===== src/Keys/Health.antt =====
-- `signingHealth` and `warnIfExpiring` of keys/keys.service.ts, and health/health.controller.ts. The log
-- line of the warning stands for its text.
pub mod Answers
use credentials_issuer.Prelude.{
  ℕ, zero, suc, ◌+◌, ◌-◌, ◌/◌, Bool, true, false, Option, none, some, Str, leb, ltb, if◌then◌else◌,
}
use credentials_issuer.Prelude.Int.{ℤ, pos, negsuc}
use credentials_issuer.Prelude.Result.{Result, ok, ◌>>=◌}
use credentials_issuer.Keys.Keyring.{EpochEntry, current_epoch, usable_epoch}
use credentials_issuer.Keys.Service.{KeyTools, KeysState, loaded}

pub record SigningHealth : Type 0 where
  pub epoch : Str
  pub usable : Bool
  pub expires_in_seconds : Option ℤ

-- The number `-n`.
pub negative : ℕ → ℤ
negative zero = pos 0
negative (suc n) = negsuc n

-- `Math.round((ends - at) / 1000)`: a half is rounded up, also below zero.
pub rounded_seconds : ℕ → ℕ → ℤ
unfolding negative
rounded_seconds ends at =
    if leb at ends then pos ((ends - at + 500) / 1000) else negative ((at - ends + 499) / 1000)

-- `none` is NaN, of a date that cannot be parsed.
pub seconds_until : Option ℕ → ℕ → Option ℤ
unfolding rounded_seconds
seconds_until none at = none
seconds_until (some ends) at = some (rounded_seconds ends at)

pub is_usable : Option EpochEntry → Bool
is_usable none = false
is_usable (some entry) = true

-- `signingHealth(at)`.
unfoldable pub signing_health : KeyTools → KeysState → ℕ → Result SigningHealth
unfolding seconds_until is_usable
signing_health tools s at = do
  keyring ← loaded s
  entry ← current_epoch keyring
  ok (record {
    epoch = entry.epoch_id;
    usable =
        is_usable (usable_epoch tools.date_parse tools.to_iso_string keyring entry.epoch_id at);
    expires_in_seconds = seconds_until (tools.date_parse entry.not_after) at;
  })

-- Below a day, `EXPIRY_WARNING_SECONDS`; no comparison with NaN is true.
pub below_a_day : Option ℤ → Bool
below_a_day none = false
below_a_day (some (pos n)) = ltb n 86400
below_a_day (some (negsuc n)) = true

pub data Warning : Type 0 where
  not_usable : Str → Warning
  expires_soon : Str → Warning

unfoldable pub warn_if_expiring : SigningHealth → Option Warning
unfolding below_a_day
warn_if_expiring health =
    if health.usable
    then (if below_a_day health.expires_in_seconds then some (expires_soon health.epoch) else none)
    else some (not_usable health.epoch)

-- The answer of GET /healthz: 200 with the body, or 503 with it.
pub data HealthAnswer : Type 0 where
  healthy : SigningHealth → HealthAnswer
  unavailable : SigningHealth → HealthAnswer

pub answer_of : SigningHealth → HealthAnswer
answer_of health = if health.usable then healthy health else unavailable health

unfoldable pub health : KeyTools → KeysState → ℕ → Result HealthAnswer
unfolding answer_of
health tools s at = do report ← signing_health tools s at; ok (answer_of report)
