-- ===== src/Stringify/Injective.antt =====
-- Two objects with the same keys have the same text only if their values are the same.
use credentials_issuer.Prelude.{
  ℕ, ◌+◌, ◌-◌, ◌*◌, ◌/◌, ◌%◌, ◌<◌, ◌≡◌, ◌≢◌, refl, sym, ap, ap₂, ◌∙◌, subst, Bool, false, ◌||◌,
  Option, none, some, List, [], ◌∷◌, ◌++◌, Str, All, arith, ltb, ◌==◌, if◌then◌else◌,
}
use mathlib.Core.List.{append_assoc}
use credentials_issuer.Stringify.{
  hex_digit, unicode_escape, escape_unit, begins_pair, escape_from, quote, properties, stringify,
}

abbrev pub IsText : Str → Type 0
IsText = All (λ c. c < 65536)

-- A reader of one escaped unit, which shows that no escape is the start of another.
hex_value : ℕ → ℕ
hex_value c = if ltb c 58 then c - 48 else c - 87

read_hex : Str → Option (ℕ × Str)
read_hex (a ∷ b ∷ c ∷ d ∷ s) =
    some (hex_value a * 4096 + hex_value b * 256 + hex_value c * 16 + hex_value d, s)
read_hex _ = none

read_escape : Str → Option (ℕ × Str)
read_escape [] = none
read_escape (e ∷ s) =
    if e == b'u'
    then read_hex s
    else if e == b'b'
    then some (8, s)
    else if e == b't'
    then some (9, s)
    else if e == b'n'
    then some (10, s)
    else if e == b'f'
    then some (12, s)
    else if e == b'r'
    then some (13, s)
    else some (e, s)

read_unit : Str → Option (ℕ × Str)
read_unit [] = none
read_unit (c ∷ s) = if c == 92 then read_escape s else some (c, s)

hex_value-hex_digit : (n : ℕ) → n < 16 → hex_value (hex_digit n) ≡ n
unfolding hex_value hex_digit
hex_value-hex_digit n h = ground arith

read_unit-unicode_escape :
    (c : ℕ) (rest : Str) → c < 65536 → read_unit (unicode_escape c ++ rest) ≡ some (c, rest)
unfolding read_unit read_escape read_hex unicode_escape
read_unit-unicode_escape c rest h = ground (
  arith,
  hex_value-hex_digit (c / 4096),
  hex_value-hex_digit (c / 256 % 16),
  hex_value-hex_digit (c / 16 % 16),
  hex_value-hex_digit (c % 16),
)

read_unit-escape_unit :
    (paired : Bool) (c : ℕ) (rest : Str)
    → c < 65536
    → read_unit (escape_unit paired c ++ rest) ≡ some (c, rest)
unfolding read_unit read_escape escape_unit
read_unit-escape_unit paired c rest h = ground (arith, read_unit-unicode_escape c rest)

-- An escaped unit does not begin with the closing quote.
starts_quote : Str → Bool
starts_quote [] = false
starts_quote (c ∷ s) = c == 34

not_quote :
    (paired : Bool) (c : ℕ) (rest : Str) → starts_quote (escape_unit paired c ++ rest) ≡ false
unfolding starts_quote escape_unit unicode_escape
not_quote paired c rest = ground arith

escape_unit-ne-quote :
    (paired : Bool) (c : ℕ) (rest r : Str) → (escape_unit paired c ++ rest) ≢ 34 ∷ r
unfolding starts_quote
escape_unit-ne-quote paired c rest r e = cc (ap starts_quote e, not_quote paired c rest)

escape_unit_cancel :
    (p q : Bool) (c d : ℕ) (r u : Str)
    → c < 65536
    → d < 65536
    → escape_unit p c ++ r ≡ escape_unit q d ++ u
    → (c ≡ d) × (r ≡ u)
escape_unit_cancel p q c d r u hc hd e =
    let same =
      sym (read_unit-escape_unit p c r hc) ∙ ap read_unit e ∙ read_unit-escape_unit q d u hd in
    (cc same, cc same)

escape_from-cons :
    (k : Bool) (c : ℕ) (s x : Str)
    → escape_from k (c ∷ s) ++ x
      ≡ escape_unit (k || begins_pair k c s) c ++ (escape_from (begins_pair k c s) s ++ x)
unfolding escape_from
escape_from-cons k c s x =
    append_assoc (escape_unit (k || begins_pair k c s) c) (escape_from (begins_pair k c s) s) x

escape_from-ne-quote : (k : Bool) (c : ℕ) (s x r : Str) → (escape_from k (c ∷ s) ++ x) ≢ 34 ∷ r
escape_from-ne-quote k c s x r e =
    escape_unit-ne-quote (k || begins_pair k c s) c (escape_from (begins_pair k c s) s ++ x) r
      (sym (escape_from-cons k c s x) ∙ e)

escape_from-nil : (k : Bool) (x : Str) → escape_from k [] ++ x ≡ x
unfolding escape_from
escape_from-nil k x = refl

-- A quoted text ends at the first quote that is not escaped, whatever follows it.
escape_from_cancel :
    (k l : Bool) (s t r u : Str)
    → IsText s
    → IsText t
    → escape_from k s ++ (34 ∷ r) ≡ escape_from l t ++ (34 ∷ u)
    → (s ≡ t) × (r ≡ u)
escape_from_cancel k l [] [] r u hs ht e =
    let same = sym (escape_from-nil k (34 ∷ r)) ∙ e ∙ escape_from-nil l (34 ∷ u) in (refl, cc same)
escape_from_cancel k l [] (d ∷ t) r u hs ht e =
    absurd (escape_from-ne-quote l d t (34 ∷ u) r (sym e ∙ escape_from-nil k (34 ∷ r)))
escape_from_cancel k l (c ∷ s) [] r u hs ht e =
    absurd (escape_from-ne-quote k c s (34 ∷ r) u (e ∙ escape_from-nil l (34 ∷ u)))
escape_from_cancel k l (c ∷ s) (d ∷ t) r u (hc, hs) (hd, ht) e =
    let (heads, tails) =
      escape_unit_cancel (k || begins_pair k c s) (l || begins_pair l d t) c d
        (escape_from (begins_pair k c s) s ++ (34 ∷ r))
        (escape_from (begins_pair l d t) t ++ (34 ∷ u)) hc hd
        (sym (escape_from-cons k c s (34 ∷ r)) ∙ e ∙ escape_from-cons l d t (34 ∷ u)) in
    let (same, rest) =
      escape_from_cancel (begins_pair k c s) (begins_pair l d t) s t r u hs ht tails in
    (ap₂ ◌∷◌ heads same, rest)

quote_cancel :
    (s t r u : Str) → IsText s → IsText t → quote s ++ r ≡ quote t ++ u → (s ≡ t) × (r ≡ u)
unfolding quote
quote_cancel s t r u hs ht e = escape_from_cancel false false s t r u hs ht (
    sym (append_assoc (escape_from false s) (34 ∷ []) r)
    ∙ cc e
    ∙ append_assoc (escape_from false t) (34 ∷ []) u)

-- Two lists of properties with the same keys, all of them texts.
abbrev pub SameKeys : List (Str × Str) → List (Str × Str) → Type 0
SameKeys [] [] = Unit
SameKeys ((k, v) ∷ fs) ((j, w) ∷ gs) = (k ≡ j) × IsText k × IsText v × IsText w × SameKeys fs gs
SameKeys _ _ = ⊥

-- `"k":"v"` with what follows it.
property_cancel :
    (k j v w r u : Str)
    → k ≡ j
    → IsText k
    → IsText v
    → IsText w
    → quote k ++ (58 ∷ (quote v ++ r)) ≡ quote j ++ (58 ∷ (quote w ++ u))
    → (v ≡ w) × (r ≡ u)
property_cancel k j v w r u same hk hv hw e =
    let (_, tails) =
      quote_cancel k j (58 ∷ (quote v ++ r)) (58 ∷ (quote w ++ u)) hk (subst IsText same hk) e in
    quote_cancel v w r u hv hw (cc tails)

properties-one : (k v x : Str) → properties ((k, v) ∷ []) ++ x ≡ quote k ++ (58 ∷ (quote v ++ x))
unfolding properties
properties-one k v x = append_assoc (quote k) (58 ∷ quote v) x

properties-more :
    (k v : Str) (p : Str × Str) (fs : List (Str × Str)) (x : Str)
    → properties ((k, v) ∷ p ∷ fs) ++ x
      ≡ quote k ++ (58 ∷ (quote v ++ (44 ∷ (properties (p ∷ fs) ++ x))))
unfolding properties
properties-more k v p fs x =
    append_assoc (quote k) (58 ∷ (quote v ++ (44 ∷ properties (p ∷ fs)))) x
    ∙ ap (λ t. quote k ++ (58 ∷ t)) (append_assoc (quote v) (44 ∷ properties (p ∷ fs)) x)

properties_cancel :
    (fs gs : List (Str × Str)) (r u : Str)
    → SameKeys fs gs
    → properties fs ++ (125 ∷ r) ≡ properties gs ++ (125 ∷ u)
    → fs ≡ gs
properties_cancel [] [] r u h e = refl
properties_cancel ((k, v) ∷ []) ((j, w) ∷ []) r u (same, hk, hv, hw, _) e =
    let (values, _) =
      property_cancel k j v w (125 ∷ r) (125 ∷ u) same hk hv hw
        (sym (properties-one k v (125 ∷ r)) ∙ e ∙ properties-one j w (125 ∷ u)) in
    cc (same, values)
properties_cancel ((k, v) ∷ p ∷ fs) ((j, w) ∷ q ∷ gs) r u (same, hk, hv, hw, h) e =
    let (values, tails) =
      property_cancel k j v w (44 ∷ (properties (p ∷ fs) ++ (125 ∷ r)))
        (44 ∷ (properties (q ∷ gs) ++ (125 ∷ u))) same hk hv hw
        (sym (properties-more k v p fs (125 ∷ r)) ∙ e ∙ properties-more j w q gs (125 ∷ u)) in
    let more = properties_cancel (p ∷ fs) (q ∷ gs) r u h (cc tails) in cc (same, values, more)
properties_cancel ((k, v) ∷ []) ((j, w) ∷ q ∷ gs) r u (same, hk, hv, hw, h) e = absurd h
properties_cancel ((k, v) ∷ p ∷ fs) ((j, w) ∷ []) r u (same, hk, hv, hw, h) e = absurd h
properties_cancel _ _ r u h e = absurd h

-- Objects with the same keys have the same text only if they have the same values.
pub stringify-injective :
    (fs gs : List (Str × Str)) → SameKeys fs gs → stringify fs ≡ stringify gs → fs ≡ gs
unfolding stringify
stringify-injective fs gs h e = properties_cancel fs gs [] [] h (cc e)
