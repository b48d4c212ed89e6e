-- ===== src/Keys/Keyring/Usable.antt =====
-- Under which epochs a request may be signed.
use credentials_issuer.Prelude.{
  ℕ, ◌≡◌, ◌≢◌, ◌≤◌, ◌<◌, ◌↔◌, refl, sym, subst, ◌∙◌, true, Option, some, List, [], ◌∷◌, Str, All,
  find, ltb, leb, ◌&&◌, arith, inl, inr, Bool-cases, Option-cases, ◌===◌, eq-text-true, eq-text,
  ◌⊎◌,
}
use credentials_issuer.Keys.Keyring.{
  EpochEntry, Keyring, has_epoch, in_force, if_in_force, usable_epoch,
}
use credentials_issuer.Keys.Keyring.Valid.{IsKeyring, IsEpoch, Distinct}

abbrev pub IsIn : EpochEntry → List EpochEntry → Type 0
IsIn e [] = ⊥
IsIn e (d ∷ ds) = (d ≡ e) ⊎ IsIn e ds

pub found-IsIn :
    (id : Str) (e : EpochEntry) (es : List EpochEntry)
    → find (has_epoch id) es ≡ some e
    → IsIn e es × (e.epoch_id ≡ id)
unfolding has_epoch
found-IsIn id e [] h = cc
found-IsIn id e (d ∷ ds) h = elim (Bool-cases (d.epoch_id === id)) [
  | inl here ↦
      let same : d ≡ e = ground arith in
      (inl same, subst (λ (x : EpochEntry). x.epoch_id ≡ id) same (eq-text-true here))
  | inr other ↦ let (later, named) = found-IsIn id e ds (ground arith) in (inr later, named)
]

pub All-IsIn :
    (P : EpochEntry → Type 0) (e : EpochEntry) (es : List EpochEntry) → All P es → IsIn e es → P e
All-IsIn P e (d ∷ ds) (here, rest) (inl same) = subst P same here
All-IsIn P e (d ∷ ds) (here, rest) (inr later) = All-IsIn P e ds rest later
All-IsIn P e [] h i = absurd i

not_earlier :
    (e d : EpochEntry) (es : List EpochEntry)
    → All (λ x. x.epoch_id ≢ d.epoch_id) es
    → IsIn e es
    → e.epoch_id ≢ d.epoch_id
not_earlier e d es others here = All-IsIn (λ x. x.epoch_id ≢ d.epoch_id) e es others here

module _ (date_parse : Str → Option ℕ) (to_iso_string : ℕ → Str) where
  find_in :
      (id : Str) (e : EpochEntry) (es : List EpochEntry)
      → Distinct date_parse to_iso_string es
      → IsIn e es
      → e.epoch_id ≡ id
      → find (has_epoch id) es ≡ some e
  unfolding has_epoch
  find_in id e [] distinct here named = absurd here
  find_in id e (d ∷ ds) (others, distinct) (inl same) named =
      rw (same, (eq-text e.epoch_id id).1 named)
  find_in id e (d ∷ ds) (others, distinct) (inr later) named =
      let other = not_earlier e d ds others later in
      ground (arith, eq-text d.epoch_id id, find_in id e ds distinct later named)

  -- The entry of a validity window that holds the instant.
  pub record IsInForce (e : EpochEntry) (now : ℕ) : Type 0 where
    pub begins : ℕ
    pub ends : ℕ
    pub not_before : date_parse e.not_before ≡ some begins
    pub not_after : date_parse e.not_after ≡ some ends
    pub started : begins ≤ now
    pub going : now < ends

  pub in_force-IsInForce :
      (e : EpochEntry) (now : ℕ)
      → IsEpoch date_parse to_iso_string e
      → in_force date_parse to_iso_string e now ≡ true
      → IsInForce e now
  unfolding in_force
  in_force-IsInForce e now h t =
      let (before, _) = h.not_before in
      let (after, _) = h.not_after in
      let computed : in_force date_parse to_iso_string e now
          ≡ (leb h.begins now && ltb now h.ends) =
        rw (before, after) refl in
      let tested : (leb h.begins now && ltb now h.ends) ≡ true = sym computed ∙ t in
      record {
        begins = h.begins;
        ends = h.ends;
        not_before = before;
        not_after = after;
        started = ground arith;
        going = ground arith;
      }

  pub IsInForce-in_force :
      (e : EpochEntry) (now : ℕ) → IsInForce e now → in_force date_parse to_iso_string e now ≡ true
  unfolding in_force
  IsInForce-in_force e now h = rw (h.not_before, h.not_after) (ground (arith, h.started, h.going))

  -- In an accepted keyring an epoch is usable exactly if the keyring has an entry of that name whose
  -- window holds the present, from `not_before` on and until before `not_after`.
  pub usable_epoch_iff :
      (k : Keyring) (id : Str) (now : ℕ) (e : EpochEntry)
      → IsKeyring date_parse to_iso_string k
      → (usable_epoch date_parse to_iso_string k id now ≡ some e)
        ↔ (IsIn e k.epochs × (e.epoch_id ≡ id) × IsInForce e now)
  unfolding usable_epoch if_in_force
  usable_epoch_iff k id now e h = (
    λ usable. elim (Option-cases (find (has_epoch id) k.epochs)) [
      | inl absent ↦ ground arith
      | inr (d, found) ↦ elim (Bool-cases (in_force date_parse to_iso_string d now)) [
        | inr expired ↦ ground arith
        | inl live ↦
            let same : d ≡ e = ground arith in
            let (here, named) = found-IsIn id d k.epochs found in
            subst (λ (x : EpochEntry). IsIn x k.epochs × (x.epoch_id ≡ id) × IsInForce x now) same
              (
                here,
                named,
                in_force-IsInForce d now
                    (All-IsIn (IsEpoch date_parse to_iso_string) d k.epochs h.epochs here) live,
              )
      ]
    ],
    λ (here, named, live).
        rw
          (find_in id e k.epochs h.distinct here named, if_in_force, IsInForce-in_force e now live),
  )
