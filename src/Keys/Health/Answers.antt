-- ===== src/Keys/Health/Answers.antt =====
-- When the issuer reports itself healthy.
use credentials_issuer.Prelude.{
  ℕ, ◌≡◌, ◌↔◌, sym, ap, ◌∙◌, subst, true, some, find, inl, inr, arith, Bool-cases,
}
use credentials_issuer.Prelude.Result.{ok}
use credentials_issuer.Keys.Keyring.{
  EpochEntry, Keyring, has_epoch, in_force, if_in_force, usable_epoch, current_epoch, some_or,
}
use credentials_issuer.Keys.Keyring.Valid.{IsEpoch}
use credentials_issuer.Keys.Keyring.Usable.{
  IsIn, IsInForce, found-IsIn, All-IsIn, in_force-IsInForce, IsInForce-in_force,
}
use credentials_issuer.Keys.Service.{KeyTools, KeysState, loaded, or_error}
use credentials_issuer.Keys.Service.Reloads.{IsServing, find_named}
use credentials_issuer.Keys.Health.{
  SigningHealth, healthy, signing_health, seconds_until, is_usable, answer_of, health,
}

module _ (tools : KeyTools) (s : KeysState) (at : ℕ) where
  abbrev report_of : EpochEntry → SigningHealth
  report_of e = record {
    epoch = e.epoch_id;
    usable = in_force tools.date_parse tools.to_iso_string e at;
    expires_in_seconds = seconds_until (tools.date_parse e.not_after) at;
  }

  is_usable-if_in_force :
      (e : EpochEntry)
      → is_usable (if_in_force tools.date_parse tools.to_iso_string at (some e))
        ≡ in_force tools.date_parse tools.to_iso_string e at
  unfolding if_in_force is_usable
  is_usable-if_in_force e = elim (Bool-cases (in_force tools.date_parse tools.to_iso_string e at)) [
    | inl live ↦ rw (if_in_force, live)
    | inr dead ↦ rw (if_in_force, dead)
  ]

  health-found :
      (k : Keyring) (e : EpochEntry)
      → s.keyring ≡ some k
      → find (has_epoch k.current_epoch) k.epochs ≡ some e
      → e.epoch_id ≡ k.current_epoch
      → health tools s at ≡ ok (answer_of (report_of e))
  unfolding health signing_health loaded or_error current_epoch some_or
  health-found k e holds found named =
      let usable : is_usable (usable_epoch tools.date_parse tools.to_iso_string k e.epoch_id at)
          ≡ in_force tools.date_parse tools.to_iso_string e at =
        unfold usable_epoch in
        (ap (λ o. is_usable (if_in_force tools.date_parse tools.to_iso_string at o))
            (subst (λ i. find (has_epoch i) k.epochs ≡ some e) (sym named) found)
          ∙ is_usable-if_in_force e) in
      rw (holds, found, usable)

  answer-healthy :
      (r : SigningHealth)
      → ((q : SigningHealth) × (ok (answer_of r) ≡ ok (healthy q))) ↔ (r.usable ≡ true)
  unfolding answer_of
  answer-healthy r = elim (Bool-cases r.usable) [
    | inl good ↦ (λ h. good, λ h. (r, rw good))
    | inr bad ↦ (λ (q, same). ground arith, λ h. cc (h, bad))
  ]

  -- An issuer that holds a trusted keyring answers GET /healthz with 200 exactly while the window of
  -- its current epoch holds the present.
  pub health_iff :
      (h : IsServing tools s)
      → (e : EpochEntry) × IsIn e h.k.epochs
        × (e.epoch_id ≡ h.k.current_epoch)
        × (((q : SigningHealth) × (health tools s at ≡ ok (healthy q)))
            ↔ IsInForce tools.date_parse tools.to_iso_string e at)
  health_iff h =
      let (e, found, named, good) =
        find_named tools h.k.current_epoch h.trusted.verify h.k.epochs h.trusted.valid.current
          h.trusted.signed in
      let (inside, _) = found-IsIn h.k.current_epoch e h.k.epochs found in
      let valid =
        All-IsIn (IsEpoch tools.date_parse tools.to_iso_string) e h.k.epochs h.trusted.valid.epochs
          inside in
      let answer = health-found h.k e h.holds found named in
      (
        e,
        inside,
        named,
        (
          λ (q, healthy_now).
              in_force-IsInForce tools.date_parse tools.to_iso_string e at valid
                ((answer-healthy (report_of e)).0 (q, sym answer ∙ healthy_now)),
          λ live.
              let (q, same) =
                (answer-healthy (report_of e)).1
                  (IsInForce-in_force tools.date_parse tools.to_iso_string e at live) in
              (q, answer ∙ same),
        ),
      )
