-- ===== src/Keys/Keyring/Valid.antt =====
-- What an accepted keyring is.
use credentials_issuer.Prelude.{
  ℕ, ◌≡◌, ◌≢◌, ◌<◌, refl, subst, true, false, Option, some, List, [], ◌∷◌, Str, code_units, All,
  any, ltb, arith, inl, inr, Bool-cases, Option-cases, ◌===◌, eq-text-true, eq-text,
}
use credentials_issuer.Prelude.Json.{Json, str, is_object, get}
use credentials_issuer.Prelude.Result.{ok, Result-cases}
use credentials_issuer.Errors.Base64.{Bytes, decode_strict_base64}
use credentials_issuer.Keys.Keyring.{
  EpochEntry, Keyring, blind_signature_suite, text_field, is_base64, iso_instant, iso_check,
  string_of, some_or, parse_epoch, parse_epochs, epoch_list, has_epoch, all_distinct, root_key_text,
  parse_keyring,
}

module _ (date_parse : Str → Option ℕ) (to_iso_string : ℕ → Str) where
  -- A text that is the ISO form of its own instant.
  abbrev pub IsInstant : Str → ℕ → Type 0
  IsInstant text instant = (date_parse text ≡ some instant) × (to_iso_string instant ≡ text)

  pub record IsEpoch (e : EpochEntry) : Type 0 where
    pub begins : ℕ
    pub ends : ℕ
    pub suite : e.alg ≡ blind_signature_suite
    pub not_before : IsInstant e.not_before begins
    pub not_after : IsInstant e.not_after ends
    pub ordered : begins < ends
    pub bytes : Bytes
    pub pubkey : decode_strict_base64 (str e.pubkey) ≡ some bytes

  iso_instant-IsInstant :
      (value : Option Json) (text : Str) (instant : ℕ)
      → iso_instant date_parse to_iso_string value ≡ ok (text, instant)
      → IsInstant text instant
  unfolding iso_instant some_or iso_check
  iso_instant-IsInstant value text instant h = elim (Option-cases (string_of value)) [
    | inl absent ↦ ground arith
    | inr (s, present) ↦ elim (Option-cases (date_parse s)) [
      | inl nan ↦ ground arith
      | inr (t, parsed) ↦ elim (Bool-cases (to_iso_string t === s)) [
        | inr other ↦ ground arith
        | inl same ↦
            let ends : iso_instant date_parse to_iso_string value ≡ ok (s, t) =
              rw (present, parsed, iso_check, same) refl in
            let equal : (s, t) ≡ (text, instant) = cc (h, ends) in
            subst (λ (p : Str × ℕ). IsInstant p.0 p.1) equal (parsed, eq-text-true same)
      ]
    ]
  ]

  is_base64-bytes :
      (s : Str) → is_base64 s ≡ true → (bytes : Bytes) × (decode_strict_base64 (str s) ≡ some bytes)
  unfolding is_base64
  is_base64-bytes s h = elim (Option-cases (decode_strict_base64 (str s))) [
    | inl refused ↦ ground arith
    | inr (bytes, decoded) ↦ (bytes, decoded)
  ]

  parse_epoch-IsEpoch :
      (raw : Json) (e : EpochEntry) → parse_epoch date_parse to_iso_string raw ≡ ok e → IsEpoch e
  unfolding parse_epoch
  parse_epoch-IsEpoch raw e h = elim (Bool-cases (is_object raw)) [
    | inr bad ↦ ground arith
    | inl object ↦ elim (Result-cases (text_field raw (code_units "epoch_id"))) [
      | inr (f, bad) ↦ ground arith
      | inl (epoch_id, f0) ↦ elim (Result-cases (text_field raw (code_units "alg"))) [
        | inr (f, bad) ↦ ground arith
        | inl (alg, f1) ↦ elim (Result-cases (text_field raw (code_units "pubkey"))) [
          | inr (f, bad) ↦ ground arith
          | inl (pubkey, f2) ↦ elim (Result-cases (text_field raw (code_units "root_sig"))) [
            | inr (f, bad) ↦ ground arith
            | inl (root_sig, f3) ↦
                elim (Result-cases (text_field raw (code_units "private_key_pkcs8_pem"))) [
                  | inr (f, bad) ↦ ground arith
                  | inl (pem, f4) ↦ elim (Bool-cases (alg === blind_signature_suite)) [
                    | inr bad ↦ ground arith
                    | inl suite ↦
                        elim (Result-cases (
                          iso_instant date_parse to_iso_string
                            (get raw (code_units "not_before")))) [
                              | inr (f, bad) ↦ ground arith
                              | inl ((not_before, begins), f5) ↦
                                  elim (Result-cases (
                                    iso_instant date_parse to_iso_string
                                      (get raw (code_units "not_after")))) [
                                        | inr (f, bad) ↦ ground arith
                                        | inl ((not_after, ends), f6) ↦
                                            elim (Bool-cases (ltb begins ends)) [
                                              | inr bad ↦ ground arith
                                              | inl ordered ↦ elim (Bool-cases (is_base64 pubkey)) [
                                                | inr bad ↦ ground arith
                                                | inl encoded ↦
                                                    let (bytes, decoded) =
                                                      is_base64-bytes pubkey encoded in
                                                    let entry : EpochEntry = record {
                                                      epoch_id = epoch_id;
                                                      not_before = not_before;
                                                      not_after = not_after;
                                                      alg = alg;
                                                      pubkey = pubkey;
                                                      root_sig = root_sig;
                                                      private_key_pkcs8_pem = pem;
                                                    } in
                                                    let same : entry ≡ e = ground arith in
                                                    subst IsEpoch same (record {
                                                      begins = begins;
                                                      ends = ends;
                                                      suite = eq-text-true suite;
                                                      not_before =
                                                          iso_instant-IsInstant _ not_before begins
                                                            f5;
                                                      not_after =
                                                          iso_instant-IsInstant _ not_after ends f6;
                                                      ordered = ground arith;
                                                      bytes = bytes;
                                                      pubkey = decoded;
                                                    })
                                              ]
                                            ]
                                      ]
                            ]
                  ]
                ]
          ]
        ]
      ]
    ]
  ]

  parse_epochs-IsEpoch :
      (raws : List Json) (es : List EpochEntry)
      → parse_epochs date_parse to_iso_string raws ≡ ok es
      → All IsEpoch es
  unfolding parse_epochs
  parse_epochs-IsEpoch [] es h = let none_left : [] ≡ es = cc h in subst (All IsEpoch) none_left tt
  parse_epochs-IsEpoch (raw ∷ raws) es h =
      elim (Result-cases (parse_epoch date_parse to_iso_string raw)) [
        | inr (f, bad) ↦ ground arith
        | inl (e, good) ↦ elim (Result-cases (parse_epochs date_parse to_iso_string raws)) [
          | inr (f, bad) ↦ ground arith
          | inl (rest, fine) ↦
              let same : e ∷ rest ≡ es = ground arith in
              subst (All IsEpoch) same
                (parse_epoch-IsEpoch raw e good, parse_epochs-IsEpoch raws rest fine)
        ]
      ]

  -- No two entries have the same identifier.
  abbrev pub Distinct : List EpochEntry → Type 0
  Distinct [] = Unit
  Distinct (e ∷ es) = All (λ d. d.epoch_id ≢ e.epoch_id) es × Distinct es

  none_of :
      (id : Str) (es : List EpochEntry)
      → any (has_epoch id) es ≡ false
      → All (λ d. d.epoch_id ≢ id) es
  unfolding has_epoch
  none_of id [] h = tt
  none_of id (e ∷ es) h = ground (arith, eq-text e.epoch_id id, none_of id es)

  all_distinct-Distinct : (es : List EpochEntry) → all_distinct es ≡ true → Distinct es
  unfolding all_distinct
  all_distinct-Distinct [] h = tt
  all_distinct-Distinct (e ∷ es) h = ground (arith, none_of e.epoch_id es, all_distinct-Distinct es)

  pub record IsKeyring (k : Keyring) : Type 0 where
    pub epochs : All IsEpoch k.epochs
    pub distinct : Distinct k.epochs
    pub current : any (has_epoch k.current_epoch) k.epochs ≡ true
    pub root_key : is_base64 k.root_public_key_spki ≡ true

  root_key_text-is_base64 :
      (value : Option Json) (text : Str) → root_key_text value ≡ ok text → is_base64 text ≡ true
  unfolding root_key_text some_or
  root_key_text-is_base64 value text h = elim (Option-cases (string_of value)) [
    | inl absent ↦ ground arith
    | inr (s, present) ↦ elim (Bool-cases (is_base64 s)) [
      | inr bad ↦ ground arith
      | inl good ↦ let same : s ≡ text = ground arith in subst (λ u. is_base64 u ≡ true) same good
    ]
  ]

  -- An accepted keyring advertises one of its epochs, names each epoch once, and every epoch has the
  -- suite of the protocol, a window of ISO instants that is not empty, and a key that is base64.
  pub parse_keyring-IsKeyring :
      (raw : Json) (k : Keyring) → parse_keyring date_parse to_iso_string raw ≡ ok k → IsKeyring k
  unfolding parse_keyring
  parse_keyring-IsKeyring raw k h = elim (Bool-cases (is_object raw)) [
    | inr bad ↦ ground arith
    | inl object ↦ elim (Result-cases (text_field raw (code_units "current_epoch"))) [
      | inr (f, bad) ↦ ground arith
      | inl (current_epoch, f0) ↦
          elim (Result-cases (root_key_text (get raw (code_units "root_public_key_spki")))) [
            | inr (f, bad) ↦ ground arith
            | inl (spki, f1) ↦ elim (Result-cases (epoch_list (get raw (code_units "epochs")))) [
              | inr (f, bad) ↦ ground arith
              | inl (raws, f2) ↦ elim (Result-cases (parse_epochs date_parse to_iso_string raws)) [
                | inr (f, bad) ↦ ground arith
                | inl (epochs, f3) ↦ elim (Bool-cases (any (has_epoch current_epoch) epochs)) [
                  | inr bad ↦ ground arith
                  | inl current ↦ elim (Bool-cases (all_distinct epochs)) [
                    | inr bad ↦ ground arith
                    | inl distinct ↦
                        let keyring : Keyring = record {
                          current_epoch = current_epoch;
                          root_public_key_spki = spki;
                          epochs = epochs;
                        } in
                        let same : keyring ≡ k = ground arith in
                        subst IsKeyring same (record {
                          epochs = parse_epochs-IsEpoch raws epochs f3;
                          distinct = all_distinct-Distinct epochs distinct;
                          current = current;
                          root_key = root_key_text-is_base64 _ spki f1;
                        })
                  ]
                ]
              ]
            ]
          ]
    ]
  ]
