-- ===== src/Keys/Pem/RoundTrip.antt =====
-- Reading a PEM text gives back the bytes that it was written from.
use credentials_issuer.Prelude.{
  ℕ, zero, suc, ◌+◌, ◌-◌, ◌*◌, ◌/◌, ◌%◌, ◌≡◌, ◌≤◌, ◌<◌, refl, sym, ap, ◌∙◌, subst, true, false, [],
  ◌∷◌, ◌++◌, Str, All, arith, length, length-append, take-append, drop-append, leb, le→leb,
  eq-text_refl, code_units,
}
use mathlib.Core.List.{reverse_aux, reverse_aux-append, append_assoc, append-nil}
use credentials_issuer.Prelude.Spaces.{is_space, drop_spaces, trim}
use credentials_issuer.Prelude.Result.{ok}
use credentials_issuer.Errors.Base64.{Bytes, symbol, to_base64, from_base64}
use credentials_issuer.Errors.Base64.Canonical.{IsBytes, from_base64-to_base64}
use credentials_issuer.Keys.Pem.{
  base64_to_bytes, starts_with, ends_with, slice, remove_spaces, unwrap, wrap_lines, armor,
  pkcs8_pem_to_der, spki_pem_to_der, der_to_pkcs8_pem, der_to_spki_pem,
}

abbrev IsDense : Str → Type 0
IsDense = All (λ c. is_space c ≡ false)

symbol-range : (v : ℕ) → v < 64 → (43 ≤ symbol v) × (symbol v ≤ 122)
unfolding symbol
symbol-range v h = ground arith

printable : (c : ℕ) → 43 ≤ c → c ≤ 122 → is_space c ≡ false
unfolding is_space
printable c low high = ground arith

symbol-dense : (v : ℕ) → v < 64 → is_space (symbol v) ≡ false
symbol-dense v h = let (low, high) = symbol-range v h in printable (symbol v) low high

to_base64-IsDense : (bs : Bytes) → IsBytes bs → IsDense (to_base64 bs)
unfolding to_base64 is_space
to_base64-IsDense [] h = tt
to_base64-IsDense (a ∷ []) h = (
  symbol-dense (a / 4) (omega arith),
  (symbol-dense (a % 4 * 16) (omega arith), (refl, (refl, tt))),
)
to_base64-IsDense (a ∷ b ∷ []) h = (
  symbol-dense (a / 4) (omega arith),
  (
    symbol-dense (a % 4 * 16 + b / 16) (omega arith),
    (symbol-dense (b % 16 * 4) (omega arith), (refl, tt)),
  ),
)
to_base64-IsDense (a ∷ b ∷ c ∷ rest) (ha, (hb, (hc, h))) = (
  symbol-dense (a / 4) (omega arith),
  (
    symbol-dense (a % 4 * 16 + b / 16) (omega arith),
    (
      symbol-dense (b % 16 * 4 + c / 64) (omega arith),
      (symbol-dense (c % 64) (omega arith), to_base64-IsDense rest h),
    ),
  ),
)

-- Line breaks are white space, and all that the lines add.
remove_spaces-wrap_lines :
    (room : ℕ) (s t : Str)
    → IsDense s
    → remove_spaces (wrap_lines room s ++ t) ≡ s ++ remove_spaces t
unfolding remove_spaces wrap_lines
remove_spaces-wrap_lines room [] t h = refl
remove_spaces-wrap_lines zero (c ∷ s) t (here, rest) =
    rw here (ap (λ r. c ∷ r) (remove_spaces-wrap_lines 63 s t rest))
remove_spaces-wrap_lines (suc room) (c ∷ s) t (here, rest) =
    rw here (ap (λ r. c ∷ r) (remove_spaces-wrap_lines room s t rest))

reverse_aux-reverse_aux : (t a r : Str) → reverse_aux (reverse_aux t a) r ≡ reverse_aux a (t ++ r)
reverse_aux-reverse_aux [] a r = refl
reverse_aux-reverse_aux (x ∷ t) a r = reverse_aux-reverse_aux t (x ∷ a) r

-- Trimming a text between two dashes takes only the line break behind it away.
trim-dashes : (t : Str) → trim (45 ∷ (t ++ (45 ∷ 10 ∷ []))) ≡ 45 ∷ (t ++ (45 ∷ []))
unfolding trim drop_spaces is_space
trim-dashes t =
    ap (λ r. reverse_aux (drop_spaces r) []) (reverse_aux-append t (45 ∷ 10 ∷ []) (45 ∷ []))
    ∙ reverse_aux-reverse_aux t (45 ∷ []) (45 ∷ [])

length-before : (s t : Str) → length (s ++ t) - length t ≡ length s
length-before s t = omega (arith, length-append s t)

starts_with-append : (s t : Str) → starts_with s (s ++ t) ≡ true
unfolding starts_with
starts_with-append s t = rw (take-append s t) (eq-text_refl s)

ends_with-append : (s t : Str) → ends_with t (s ++ t) ≡ true
unfolding ends_with
ends_with-append s t =
    let short : leb (length t) (length (s ++ t)) ≡ true =
      le→leb (length t) (length (s ++ t)) (omega (arith, length-append s t)) in
    rw (short, length-before s t, drop-append s t) (eq-text_refl t)

slice-middle :
    (s m t : Str) → slice (length s) (length (s ++ (m ++ t)) - length t) (s ++ (m ++ t)) ≡ m
unfolding slice
slice-middle s m t =
    let long : (length (s ++ (m ++ t)) - length t) - length s ≡ length m =
      omega (arith, length-append s (m ++ t), length-append m t) in
    rw (long, drop-append s (m ++ t), take-append m t)

ends_with-middle : (s m t : Str) → ends_with t (s ++ (m ++ t)) ≡ true
ends_with-middle s m t =
    subst (λ x. ends_with t x ≡ true) (append_assoc s m t) (ends_with-append (s ++ m) t)

append-lines :
    (h l f e : Str) → (h ++ (10 ∷ (l ++ (10 ∷ f)))) ++ e ≡ h ++ (10 ∷ (l ++ (10 ∷ (f ++ e))))
append-lines h l f e =
    append_assoc h (10 ∷ (l ++ (10 ∷ f))) e ∙ ap (λ r. h ++ (10 ∷ r)) (append_assoc l (10 ∷ f) e)

trim-lines :
    (h l f : Str)
    → trim (45 ∷ (h ++ (10 ∷ (l ++ (10 ∷ ((f ++ (45 ∷ [])) ++ (10 ∷ [])))))))
      ≡ 45 ∷ (h ++ (10 ∷ ((l ++ (10 ∷ [])) ++ (f ++ (45 ∷ [])))))
trim-lines h l f =
    let text = h ++ (10 ∷ (l ++ (10 ∷ f))) in
    ap (λ r. trim (45 ∷ r))
      (ap (λ r. h ++ (10 ∷ (l ++ (10 ∷ r)))) (append_assoc f (45 ∷ []) (10 ∷ []))
        ∙ sym (append-lines h l f (45 ∷ 10 ∷ [])))
    ∙ trim-dashes text
    ∙ ap (λ r. 45 ∷ r)
        (append-lines h l f (45 ∷ [])
          ∙ ap (λ r. h ++ (10 ∷ r)) (sym (append_assoc l (10 ∷ []) (f ++ (45 ∷ [])))))

remove_spaces-lines :
    (s : Str) → IsDense s → remove_spaces (10 ∷ (wrap_lines 64 s ++ (10 ∷ []))) ≡ s
unfolding remove_spaces is_space
remove_spaces-lines s h = remove_spaces-wrap_lines 64 s (10 ∷ []) h ∙ append-nil s

unwrap-middle :
    (header middle footer : Str) (text : Str)
    → text ≡ header ++ (middle ++ footer)
    → unwrap header footer text ≡ ok (base64_to_bytes (remove_spaces middle))
unfolding unwrap
unwrap-middle header middle footer text h = rw (
  h,
  starts_with-append header (middle ++ footer),
  ends_with-middle header middle footer,
  slice-middle header middle footer,
)

-- Between a header that starts and a footer that ends with a dash, the bytes come back.
unwrap-armor :
    (h f : Str) (der : Bytes)
    → IsBytes der
    → unwrap (45 ∷ h) (f ++ (45 ∷ [])) (trim (armor (45 ∷ h) (f ++ (45 ∷ [])) der)) ≡ ok der
unfolding armor base64_to_bytes
unwrap-armor h f der bytes =
    let text = to_base64 der in
    let middle = 10 ∷ (wrap_lines 64 text ++ (10 ∷ [])) in
    unwrap-middle (45 ∷ h) middle (f ++ (45 ∷ [])) _ (trim-lines h (wrap_lines 64 text) f)
    ∙ ap (λ t. ok (from_base64 t)) (remove_spaces-lines text (to_base64-IsDense der bytes))
    ∙ ap ok (from_base64-to_base64 der bytes)

-- A private key's PEM that was written from bytes is read back as them, and so is a public key's.
pub pem_to_der-der_to_pem :
    (der : Bytes)
    → IsBytes der
    → (pkcs8_pem_to_der (der_to_pkcs8_pem der) ≡ ok der)
      × (spki_pem_to_der (der_to_spki_pem der) ≡ ok der)
unfolding pkcs8_pem_to_der der_to_pkcs8_pem spki_pem_to_der der_to_spki_pem
pem_to_der-der_to_pem der bytes = (
  unwrap-armor (code_units "----BEGIN PRIVATE KEY-----") (code_units "-----END PRIVATE KEY----") der
      bytes,
  unwrap-armor (code_units "----BEGIN PUBLIC KEY-----") (code_units "-----END PUBLIC KEY----") der
      bytes,
)
