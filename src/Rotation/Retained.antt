-- ===== src/Rotation/Retained.antt =====
-- What the loop over the outgoing epochs keeps.
use credentials_issuer.Prelude.{
  ℕ, ◌≡◌, ◌≢◌, ◌<◌, refl, some, List, [], ◌∷◌, Str, All, leb, arith, inl, inr, Bool-cases,
}
use credentials_issuer.Prelude.Result.{ok}
use credentials_issuer.Keys.Keyring.{EpochEntry}
use credentials_issuer.Keys.Keyring.Valid.{IsEpoch, Distinct}
use credentials_issuer.Keys.Service.{KeyTools}
use credentials_issuer.Rotation.NextKeyring.{
  RootKey, min, sealed, resealed, shortened, already_expired, retain,
}

abbrev pub Avoids : Str → List EpochEntry → Type 0
Avoids id es = All (λ d. d.epoch_id ≢ id) es

module _ (keys : KeyTools) (iso : (t : ℕ) → keys.date_parse (keys.to_iso_string t) ≡ some t) where
  pub record IsRetained (Q : EpochEntry → Type 0) (es retained : List EpochEntry) : Type 0 where
    pub each : All Q retained
    pub avoids : (id : Str) → Avoids id es → Avoids id retained
    pub distinct : Distinct keys.date_parse keys.to_iso_string retained

  -- What the loop keeps: it never fails on an accepted keyring, whatever holds of each entry as it is
  -- sealed again holds of all that are retained, and no two of these share an identifier.
  pub retain-IsRetained :
      (now grace_until : ℕ) (root_key : RootKey) (Q : EpochEntry → Type 0) (es : List EpochEntry)
      → All
          (λ e.
            (h : IsEpoch keys.date_parse keys.to_iso_string e) × (now < min h.ends grace_until
              → Q (resealed e (keys.to_iso_string (min h.ends grace_until)) root_key)))
          es
      → Distinct keys.date_parse keys.to_iso_string es
      → (retained : List EpochEntry) × (retain keys now grace_until root_key es ≡ ok retained)
        × IsRetained Q es retained
  unfolding retain shortened already_expired resealed sealed
  retain-IsRetained now grace_until root_key Q [] h distinct =
      ([], refl, record { each = tt; avoids = λ id none_there. tt; distinct = tt })
  retain-IsRetained now grace_until root_key Q (e ∷ es) ((he, q), h) (others, distinct) =
      let (rest, good, r) = retain-IsRetained now grace_until root_key Q es h distinct in
      let (ends, _) = he.not_after in
      elim (Bool-cases (leb (min he.ends grace_until) now)) [
        | inl expired ↦ (
          rest,
          rw (shortened, ends, good, already_expired, iso (min he.ends grace_until), expired) refl,
          record {
            each = r.each;
            avoids = λ id (here, there). r.avoids id there;
            distinct = r.distinct;
          },
        )
        | inr going ↦ (
          resealed e (keys.to_iso_string (min he.ends grace_until)) root_key ∷ rest,
          rw (shortened, ends, good, already_expired, iso (min he.ends grace_until), going) refl,
          record {
            each = (q (ground arith), r.each);
            avoids = λ id (here, there). (here, r.avoids id there);
            distinct = (r.avoids e.epoch_id others, r.distinct);
          },
        )
      ]
