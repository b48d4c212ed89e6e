-- ===== src/Prelude/Spaces.antt =====
-- `String.prototype.trim`, and the white space of the language (`\s` of a regular expression too);
-- and the removal of slashes at the ends of a text.
use Prim.Native.Nat.{ℕ}
use mathlib.Core.Bool.{Bool, ◌||◌, ◌&&◌}
use mathlib.Core.List.{[], ◌∷◌, reverse}
use credentials_issuer.Prelude.Tests.{leb, ◌==◌, if◌then◌else◌}
use credentials_issuer.Prelude.Texts.{Str}

-- White space and line terminators of the language.
unfoldable pub is_space : ℕ → Bool
is_space c =
    (leb 9 c && leb c 13)
    || c == 0x20
    || c == 0xA0
    || c == 0x1680
    || (leb 0x2000 c && leb c 0x200A)
    || c == 0x2028
    || c == 0x2029
    || c == 0x202F
    || c == 0x205F
    || c == 0x3000
    || c == 0xFEFF

unfoldable pub drop_spaces : Str → Str
drop_spaces [] = []
drop_spaces (c ∷ s) = let rest = drop_spaces s in if is_space c then rest else c ∷ s

unfoldable pub trim : Str → Str
unfolding drop_spaces is_space
trim s = reverse (drop_spaces (reverse (drop_spaces s)))

-- `replace(/^\/+/, '')`.
pub drop_slashes : Str → Str
drop_slashes [] = []
drop_slashes (c ∷ s) = let rest = drop_slashes s in if c == b'/' then rest else c ∷ s

-- `replace(/\/+$/, '')`.
unfoldable pub drop_last_slashes : Str → Str
unfolding drop_slashes
drop_last_slashes s = reverse (drop_slashes (reverse s))
