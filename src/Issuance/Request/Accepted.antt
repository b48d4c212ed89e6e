-- ===== src/Issuance/Request/Accepted.antt =====
-- What a request that passed the validation looks like.
use credentials_issuer.Prelude.{
  ℕ, ◌≡◌, refl, sym, ap, ◌∙◌, true, Option, some, List, [], ◌∷◌, Str, arith, length, subst, ◌≢◌,
  Bool-cases, code_units, ◌==◌, ==_iff, suc, Option-cases, inl, inr,
}
use credentials_issuer.Prelude.Json.{Json, str, is_object, get}
use credentials_issuer.Prelude.Result.{ok, Result-cases}
use credentials_issuer.Config.{IssuerConfig}
use credentials_issuer.Errors.Base64.{Bytes, decode_strict_base64}
use credentials_issuer.Issuance.Request.{
  BundleRequest, non_empty_string, has_size, blank_text, blank_texts, array_of, expect,
  validate_bundle_request,
}

-- A text that decodes strictly to so many bytes.
abbrev pub IsBlank : ℕ → Str → Type 0
IsBlank size s =
    (bytes : Bytes) × (decode_strict_base64 (str s) ≡ some bytes) × (length bytes ≡ size)

-- The texts are those of the values, in order, and each one is a blank.
abbrev pub AreBlanks : ℕ → List Json → List Str → Type 0
AreBlanks size [] [] = Unit
AreBlanks size (v ∷ vs) (s ∷ ss) = (v ≡ str s) × IsBlank size s × AreBlanks size vs ss
AreBlanks size _ _ = ⊥

blank_text_sound :
    (size : ℕ) (v : Json) (s : Str) → blank_text size v ≡ some s → (v ≡ str s) × IsBlank size s
unfolding blank_text has_size
blank_text_sound size (str t) s h = elim (Option-cases (decode_strict_base64 (str t))) [
  | inl e ↦ ground arith
  | inr (bytes, e) ↦
      let same : t ≡ s = ground arith in
      (ap str same, (bytes, ap (λ u. decode_strict_base64 (str u)) (sym same) ∙ e, ground arith))
]
blank_text_sound size v s h = cc

blank_texts_sound :
    (size : ℕ) (vs : List Json) (ss : List Str) → blank_texts size vs ≡ ok ss → AreBlanks size vs ss
unfolding blank_texts
blank_texts_sound size [] [] h = tt
blank_texts_sound size [] (s ∷ ss) h = cc
blank_texts_sound size (v ∷ vs) ss h = elim (Option-cases (blank_text size v)) [
  | inl e ↦ ground arith
  | inr (t, e) ↦ elim (Result-cases (blank_texts size vs)) [
    | inr (f, g) ↦ ground arith
    | inl (ts, g) ↦
        let same : t ∷ ts ≡ ss = ground arith in
        let (text, blank) = blank_text_sound size v t e in
        subst (AreBlanks size (v ∷ vs)) same (text, blank, blank_texts_sound size vs ts g)
  ]
]

-- A request that was accepted: the body is an object whose epoch is a non-empty text, and whose
-- blanks are exactly as many as a bundle holds, each of the configured size.
pub record IsAccepted (config : IssuerConfig) (body : Json) (request : BundleRequest) : Type 0 where
  pub blanks : List Json
  pub is_object : is_object body ≡ true
  pub epoch : get body (code_units "epoch") ≡ some (str request.epoch)
  pub epoch_filled : length request.epoch ≢ 0
  pub listed : array_of (get body (code_units "blinded_blanks")) ≡ some blanks
  pub count : length blanks ≡ config.bundle_size
  pub texts : AreBlanks config.blank_size_bytes blanks request.blinded_blanks

non_empty_string_sound :
    (v : Option Json) (s : Str) → non_empty_string v ≡ some s → (v ≡ some (str s)) × (length s ≢ 0)
unfolding non_empty_string
non_empty_string_sound (some (str (c ∷ t))) s h =
    let same : c ∷ t ≡ s = cc h in
    (ap (λ u. some (str u)) same, subst (λ u. length u ≢ 0) same (omega arith))
non_empty_string_sound _ s h = cc

pub non_empty_string-str : (s : Str) → s ≢ [] → non_empty_string (some (str s)) ≡ some s
unfolding non_empty_string
non_empty_string-str [] h = absurd (h refl)
non_empty_string-str (c ∷ s) h = refl

pub validate_bundle_request-IsAccepted :
    (config : IssuerConfig) (body : Json) (request : BundleRequest)
    → validate_bundle_request config body ≡ ok request
    → IsAccepted config body request
unfolding validate_bundle_request expect
validate_bundle_request-IsAccepted config body request h = elim (Bool-cases (is_object body)) [
  | inr no_object ↦ ground arith
  | inl object ↦ elim (Option-cases (non_empty_string (get body (code_units "epoch")))) [
    | inl no_epoch ↦ ground arith
    | inr (epoch, has_epoch) ↦
        elim (Option-cases (array_of (get body (code_units "blinded_blanks")))) [
          | inl no_array ↦ ground arith
          | inr (blanks, listed) ↦ elim (Bool-cases (length blanks == config.bundle_size)) [
            | inr miscounted ↦ ground arith
            | inl counted ↦ elim (Result-cases (blank_texts config.blank_size_bytes blanks)) [
              | inr (e, malformed) ↦ ground arith
              | inl (texts, good) ↦
                  let accepted : BundleRequest = record { epoch = epoch; blinded_blanks = texts } in
                  let same : accepted ≡ request = ground arith in
                  let (text, filled) = non_empty_string_sound _ epoch has_epoch in
                  subst (IsAccepted config body) same (record {
                    blanks = blanks;
                    is_object = object;
                    epoch = text;
                    epoch_filled = filled;
                    listed = listed;
                    count = (==_iff _ _).0 counted;
                    texts = blank_texts_sound config.blank_size_bytes blanks texts good;
                  })
            ]
          ]
        ]
  ]
]

length-AreBlanks :
    (size : ℕ) (vs : List Json) (ss : List Str) → AreBlanks size vs ss → length ss ≡ length vs
length-AreBlanks size [] [] h = refl
length-AreBlanks size (v ∷ vs) (s ∷ ss) (_, _, h) = ap suc (length-AreBlanks size vs ss h)
length-AreBlanks size [] (s ∷ ss) h = absurd h
length-AreBlanks size (v ∷ vs) [] h = absurd h

pub IsAccepted-count :
    {config : IssuerConfig} {body : Json} {request : BundleRequest}
    → IsAccepted config body request
    → length request.blinded_blanks ≡ config.bundle_size
IsAccepted-count a = length-AreBlanks _ a.blanks _ a.texts ∙ a.count
