-- ===== src/Entitlements/Uuid.antt =====
-- The shape of a UUID in entitlements.service.ts, and the equality of the column type `uuid`, which
-- does not tell the cases of the letters apart.
use credentials_issuer.Prelude.{
  ℕ, zero, suc, ◌+◌, Bool, true, false, ◌||◌, ◌&&◌, Option, none, some, [], ◌∷◌, Str, map, leb,
  ◌==◌, ◌===◌, if◌then◌else◌,
}

pub is_hex : ℕ → Bool
is_hex c = (leb b'0' c && leb c b'9') || (leb b'a' c && leb c b'f') || (leb b'A' c && leb c b'F')

-- `[0-9a-f]{n}` with the flag `i`, and the rest of the text.
hex_run : ℕ → Str → Option Str
hex_run zero s = some s
hex_run (suc n) [] = none
hex_run (suc n) (c ∷ s) = if is_hex c then hex_run n s else none

dash : Option Str → Option Str
dash (some (c ∷ s)) = if c == b'-' then some s else none
dash _ = none

then_hex : ℕ → Option Str → Option Str
then_hex n none = none
then_hex n (some s) = hex_run n s

at_end : Option Str → Bool
at_end (some []) = true
at_end _ = false

-- `UUID.test(entitlementId)`
unfoldable pub is_uuid : Str → Bool
unfolding hex_run dash then_hex at_end is_hex
is_uuid s =
    at_end
      (then_hex 12 (dash (then_hex 4 (dash (then_hex 4 (dash (then_hex 4 (dash (hex_run 8 s)))))))))

unfoldable pub lower_case : ℕ → ℕ
lower_case c = if leb b'A' c && leb c b'Z' then c + 32 else c

unfoldable pub same_uuid : Str → Str → Bool
same_uuid a b = map lower_case a === map lower_case b
