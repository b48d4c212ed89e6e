-- ===== src/Prelude/Texts.antt =====
-- A JavaScript string is the list of its UTF-16 code units, so `length` is the `length` of the
-- source; `===` on strings is `◌===◌`. A quoted text stands for its code units.
use Prim.Native.Nat.{ℕ}
use Prim.Native.Char.{code}
use Prim.Native.String.{String}
use mathlib.Core.Path.{◌≡◌, refl}
use mathlib.Core.Logic.{◌↔◌, ◌≢◌}
use mathlib.Core.Bool.{Bool, true, false, ◌&&◌}
use mathlib.Core.List.{List, [], ◌∷◌}
use native.Mathlib.Omega.{arith}
use credentials_issuer.Prelude.Tests.{◌==◌}

abbrev pub Str : Type 0
Str = List ℕ

-- The code units of an ASCII literal.
abbrev pub code_units : String → Str
code_units String.[] = []
code_units (String.◌∷◌ c s) = code c ∷ code_units s

infix 50 ◌===◌
unfoldable pub ◌===◌ : Str → Str → Bool
[] === [] = true
[] === (_ ∷ _) = false
(_ ∷ _) === [] = false
(a ∷ s) === (b ∷ t) = (a == b) && (s === t)

pub eq-text : (s t : Str) → ((s === t) ≡ true) ↔ (s ≡ t)
unfolding ◌===◌
eq-text [] [] = ground arith
eq-text [] (b ∷ t) = ground arith
eq-text (a ∷ s) [] = ground arith
eq-text (a ∷ s) (b ∷ t) = ground (arith, eq-text s t)

pub eq-text_refl : (s : Str) → (s === s) ≡ true
eq-text_refl s = (eq-text s s).1 refl

pub eq-text-true : {s t : Str} → (s === t) ≡ true → s ≡ t
eq-text-true {s} {t} h = (eq-text s t).0 h

pub eq-text-ne : {s t : Str} → s ≢ t → (s === t) ≡ false
eq-text-ne {s} {t} h = ground (arith, eq-text s t)

pub eq-text_sym : (s t : Str) → (s === t) ≡ (t === s)
eq-text_sym s t = ground (arith, eq-text s t, eq-text t s)
