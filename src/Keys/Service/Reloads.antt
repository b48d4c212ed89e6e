-- ===== src/Keys/Service/Reloads.antt =====
-- What the issuer holds while the file of the keyring changes under it.
use credentials_issuer.Prelude.{
  ◌≡◌, refl, subst, Bool, true, false, Option, none, some, List, [], ◌∷◌, Str, All, any, find, map,
  arith, inl, inr, Bool-cases, Option-cases, ◌===◌, eq-text-true,
}
use credentials_issuer.Prelude.Result.{ok, err, Failure, Result-cases}
use credentials_issuer.Keys.Keyring.{
  EpochEntry, PublishedDocument, published_document, Keyring, parse_keyring, has_epoch,
  current_epoch,
}
use credentials_issuer.Keys.Keyring.Valid.{IsKeyring, parse_keyring-IsKeyring}
use credentials_issuer.Keys.Service.{
  KeysState, EpochKeyMaterial, KeyTools, verify_root, unloaded, material_of, verify_entries,
  verify_keyring_signatures, accept, accept_json, reload, give_up, adopt, or_error,
  same_fingerprint, loaded, current,
}

-- Every document of the keyring is signed by the root key that the keyring names.
abbrev pub IsSignedBy : (PublishedDocument → Str → Bool) → List EpochEntry → Type 0
IsSignedBy verify es = All (λ e. verify (published_document e) e.root_sig ≡ true) es

pub record IsTrusted (tools : KeyTools) (k : Keyring) : Type 0 where
  pub verify : PublishedDocument → Str → Bool
  pub valid : IsKeyring tools.date_parse tools.to_iso_string k
  pub root : verify_root tools k.root_public_key_spki ≡ some verify
  pub signed : IsSignedBy verify k.epochs

verify_entries-IsSignedBy :
    (verify : PublishedDocument → Str → Bool) (es : List EpochEntry)
    → verify_entries verify es ≡ ok tt
    → IsSignedBy verify es
unfolding verify_entries
verify_entries-IsSignedBy verify [] h = tt
verify_entries-IsSignedBy verify (e ∷ es) h =
    elim (Bool-cases (verify (published_document e) e.root_sig)) [
      | inl good ↦ (good, verify_entries-IsSignedBy verify es (ground arith))
      | inr bad ↦ ground arith
    ]

module _ (tools : KeyTools) where
  accept-IsTrusted : (raw : Str) (k : Keyring) → accept tools raw ≡ ok k → IsTrusted tools k
  unfolding accept accept_json or_error verify_keyring_signatures
  accept-IsTrusted raw k h = elim (Option-cases (tools.decode_json raw)) [
    | inl bad ↦ ground arith
    | inr (parsed, json) ↦
        elim (Result-cases (parse_keyring tools.date_parse tools.to_iso_string parsed)) [
          | inr (f, bad) ↦ ground arith
          | inl (keyring, good) ↦
              elim (Option-cases (verify_root tools keyring.root_public_key_spki)) [
                | inl bad ↦ ground arith
                | inr (verify, root) ↦ elim (Result-cases (verify_entries verify keyring.epochs)) [
                  | inr (f, bad) ↦ ground arith
                  | inl (u, signed) ↦
                      let same : keyring ≡ k = ground arith in
                      subst (IsTrusted tools) same (record {
                        verify = verify;
                        valid =
                            parse_keyring-IsKeyring tools.date_parse tools.to_iso_string parsed
                              keyring good;
                        root = root;
                        signed = verify_entries-IsSignedBy verify keyring.epochs signed;
                      })
                ]
              ]
        ]
  ]

  -- The keyring of a state is trusted, and its keys are those that the signers were told last.
  pub record IsServing (s : KeysState) : Type 0 where
    pub k : Keyring
    pub earlier : List (List EpochKeyMaterial)
    pub holds : s.keyring ≡ some k
    pub trusted : IsTrusted tools k
    pub told : s.announced ≡ map material_of k.epochs ∷ earlier

  give_up-IsServing :
      (initial : Bool) (f : Failure) (s : KeysState)
      → IsServing s
      → IsServing (give_up initial f s).1
  unfolding give_up
  give_up-IsServing true f s h = h
  give_up-IsServing false f s h = h

  reload-IsServing :
      (initial : Bool) (file : Option Str) (s : KeysState)
      → IsServing s
      → IsServing (reload tools initial file s).1
  unfolding reload give_up adopt
  reload-IsServing true none s h = h
  reload-IsServing false none s h = h
  reload-IsServing initial (some raw) s h =
      elim (Bool-cases (same_fingerprint (tools.sha256 raw) s.fingerprint)) [
        | inl same ↦ rw same h
        | inr other ↦ elim (Result-cases (accept tools raw)) [
          | inr (f, bad) ↦ rw (other, bad) (give_up-IsServing initial f s h)
          | inl (k, good) ↦
              rw (other, good)
                (record {
                  k = k;
                  earlier = s.announced;
                  holds = refl;
                  trusted = accept-IsTrusted raw k good;
                  told = refl;
                })
        ]
      ]

  -- The later reloads, one for each content of the file.
  abbrev pub reloads : List (Option Str) → KeysState → KeysState
  reloads [] s = s
  reloads (file ∷ files) s = reloads files (reload tools false file s).1

  reloads-IsServing :
      (files : List (Option Str)) (s : KeysState) → IsServing s → IsServing (reloads files s)
  reloads-IsServing [] s h = h
  reloads-IsServing (file ∷ files) s h =
      reloads-IsServing files (reload tools false file s).1 (reload-IsServing false file s h)

  started-IsServing :
      (file : Option Str) (s : KeysState)
      → reload tools true file unloaded ≡ (ok tt, s)
      → IsServing s
  unfolding reload give_up adopt same_fingerprint
  started-IsServing none s h = cc h
  started-IsServing (some raw) s h = elim (Result-cases (accept tools raw)) [
    | inr (f, bad) ↦ ground arith
    | inl (k, good) ↦
        let ends : reload tools true (some raw) unloaded ≡ (
          ok tt,
          record {
            keyring = some k;
            fingerprint = some (tools.sha256 raw);
            announced = map material_of k.epochs ∷ [];
          },
        ) =
          rw good refl in
        let same : record {
          keyring = some k;
          fingerprint = some (tools.sha256 raw);
          announced = map material_of k.epochs ∷ [];
        }
            ≡ s =
          cc (h, ends) in
        subst IsServing same (record {
          k = k;
          earlier = [];
          holds = refl;
          trusted = accept-IsTrusted raw k good;
          told = refl;
        })
  ]

  pub find_named :
      (id : Str) (verify : PublishedDocument → Str → Bool) (es : List EpochEntry)
      → any (has_epoch id) es ≡ true
      → IsSignedBy verify es
      → (e : EpochEntry) × (find (has_epoch id) es ≡ some e)
        × (e.epoch_id ≡ id)
        × (verify (published_document e) e.root_sig ≡ true)
  unfolding has_epoch
  find_named id verify [] h signed = cc
  find_named id verify (e ∷ es) h (here, signed) = elim (Bool-cases (e.epoch_id === id)) [
    | inl same ↦ (e, rw same, eq-text-true same, here)
    | inr other ↦
        let (d, found, named, good) = find_named id verify es (ground arith) signed in
        (d, rw other found, named, good)
  ]

  serving-current :
      (s : KeysState)
      → (h : IsServing s)
      → (e : EpochEntry) × (current s ≡ ok (published_document e))
        × (e.epoch_id ≡ h.k.current_epoch)
        × (h.trusted.verify (published_document e) e.root_sig ≡ true)
  unfolding current loaded or_error current_epoch
  serving-current s h =
      let (e, found, named, good) =
        find_named h.k.current_epoch h.trusted.verify h.k.epochs h.trusted.valid.current
          h.trusted.signed in
      (e, rw (h.holds, found), named, good)

  -- Once the first load has succeeded, whatever becomes of the file: the issuer holds a keyring that
  -- is valid and signed throughout by its root key, the signers were last told exactly its keys, and
  -- it serves the document of its current epoch, which the root key has signed.
  pub reloads-current :
      (file : Option Str) (files : List (Option Str)) (s : KeysState)
      → reload tools true file unloaded ≡ (ok tt, s)
      → (h : IsServing (reloads files s)) × (e : EpochEntry) × (current (reloads files s)
          ≡ ok (published_document e))
        × (e.epoch_id ≡ h.k.current_epoch)
        × (h.trusted.verify (published_document e) e.root_sig ≡ true)
  reloads-current file files s started =
      let h = reloads-IsServing files s (started-IsServing file s started) in
      let (e, served, named, good) = serving-current (reloads files s) h in
      (h, e, served, named, good)

  -- A later reload of a file that cannot be read or is not accepted changes nothing and does not fail.
  pub reload_refused :
      (file : Option Str) (s : KeysState)
      → ((raw : Str) → file ≡ some raw → (f : Failure) × (accept tools raw ≡ err f))
      → reload tools false file s ≡ (ok tt, s)
  unfolding reload give_up adopt
  reload_refused none s h = refl
  reload_refused (some raw) s h =
      elim (Bool-cases (same_fingerprint (tools.sha256 raw) s.fingerprint)) [
        | inl same ↦ rw same
        | inr other ↦ let (f, bad) = h raw refl in rw (other, bad)
      ]
