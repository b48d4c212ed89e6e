-- ===== src/Harness/Blinding/Verifies.antt =====
-- Unblinding and verifying an honest issuer's signatures.
use credentials_issuer.Prelude.{
  ◌≡◌, refl, ap, true, not, some, List, [], ◌∷◌, Str, length, keep_where, ==_iff, suc,
}
use credentials_issuer.Prelude.Json.{Json, str}
use credentials_issuer.Errors.Base64.{Bytes, from_base64, to_base64}
use credentials_issuer.Errors.Base64.Canonical.{IsBytes, from_base64-to_base64}
use credentials_issuer.Keys.Pem.{base64_to_bytes, bytes_to_base64}
use credentials_issuer.Harness.Conformance.{
  IssuedCredential, check_signatures_verify, check_credentials, verdict,
}
use credentials_issuer.Harness.Blinding.{
  Blind, Suite, both, finalize_one, finalize_each, finalize_all, credential_of, verify_credential,
  prepared_bundle,
}

-- A blob that is the signature of a blank under the suite's key: unblinded, it verifies.
pub record IsSignatureOf (suite : Suite) (blind : Blind) (blob : Json) : Type 0 where
  pub text : Str
  pub is_text : blob ≡ str text
  pub signature : Bytes
  pub finalized : suite.finalize blind.prepared (from_base64 text) blind.inv ≡ some signature
  pub verified : suite.verify signature blind.prepared ≡ true
  pub signature_bytes : IsBytes signature
  pub message_bytes : IsBytes blind.prepared

abbrev pub AreSignaturesOf : Suite → List Blind → List Json → Type 0
AreSignaturesOf suite [] [] = Unit
AreSignaturesOf suite (b ∷ bs) (v ∷ vs) = IsSignatureOf suite b v × AreSignaturesOf suite bs vs
AreSignaturesOf suite _ _ = ⊥

-- The credentials come out in the order of the blanks, each on its own message, and all verify.
abbrev pub AreCredentialsOf : Suite → List Blind → List IssuedCredential → Type 0
AreCredentialsOf suite [] [] = Unit
AreCredentialsOf suite (b ∷ bs) (c ∷ cs) =
    (c.message ≡ bytes_to_base64 b.prepared)
    × (verify_credential suite c ≡ true)
    × AreCredentialsOf suite bs cs
AreCredentialsOf suite _ _ = ⊥

module _ (suite : Suite) where
  verifies_back :
      (signature message : Bytes)
      → IsBytes signature
      → IsBytes message
      → suite.verify signature message ≡ true
      → suite.verify (from_base64 (to_base64 signature)) (from_base64 (to_base64 message)) ≡ true
  verifies_back signature message hs hm h =
      rw (from_base64-to_base64 signature hs, from_base64-to_base64 message hm) h

  finalize_one-verifies :
      (blind : Blind) (blob : Json)
      → IsSignatureOf suite blind blob
      → (c : IssuedCredential) × (finalize_one suite blind blob ≡ some c)
        × (c.message ≡ bytes_to_base64 blind.prepared)
        × (verify_credential suite c ≡ true)
  unfolding finalize_one credential_of verify_credential base64_to_bytes bytes_to_base64
  finalize_one-verifies blind blob h = (
    record { message = bytes_to_base64 blind.prepared; signature = bytes_to_base64 h.signature },
    rw (h.is_text, h.finalized),
    refl,
    verifies_back h.signature blind.prepared h.signature_bytes h.message_bytes h.verified,
  )

  finalize_each-verifies :
      (blinds : List Blind) (blobs : List Json)
      → AreSignaturesOf suite blinds blobs
      → (cs : List IssuedCredential) × (finalize_each suite blinds blobs ≡ some cs)
        × AreCredentialsOf suite blinds cs
  unfolding finalize_each both
  finalize_each-verifies [] [] h = ([], refl, tt)
  finalize_each-verifies (b ∷ bs) (v ∷ vs) (here, rest) =
      let (c, made, named, good) = finalize_one-verifies b v here in
      let (cs, all_made, fine) = finalize_each-verifies bs vs rest in
      (c ∷ cs, rw (made, all_made), (named, good, fine))
  finalize_each-verifies [] (v ∷ vs) h = absurd h
  finalize_each-verifies (b ∷ bs) [] h = absurd h

  AreSignaturesOf-count :
      (blinds : List Blind) (blobs : List Json)
      → AreSignaturesOf suite blinds blobs
      → length blobs ≡ length blinds
  AreSignaturesOf-count [] [] h = refl
  AreSignaturesOf-count (b ∷ bs) (v ∷ vs) (here, rest) = ap suc (AreSignaturesOf-count bs vs rest)
  AreSignaturesOf-count [] (v ∷ vs) h = absurd h
  AreSignaturesOf-count (b ∷ bs) [] h = absurd h

  none_invalid :
      (blinds : List Blind) (cs : List IssuedCredential)
      → AreCredentialsOf suite blinds cs
      → keep_where (λ c. not (verify_credential suite c)) cs ≡ []
  none_invalid [] [] h = refl
  none_invalid (b ∷ bs) (c ∷ cs) (named, good, rest) = rw (good, none_invalid bs cs rest)
  none_invalid [] (c ∷ cs) h = absurd h
  none_invalid (b ∷ bs) [] h = absurd h

  -- If the issuer answers with one good signature for each blank, in their order, the check passes
  -- and the buyer holds a verifying credential for each blank, on its message.
  pub check_signatures_verify-honest :
      (blinds : List Blind) (blobs : List Json)
      → AreSignaturesOf suite blinds blobs
      → ((check_signatures_verify (prepared_bundle suite blinds) blobs).0.passed ≡ true)
        × AreCredentialsOf suite blinds
            (check_signatures_verify (prepared_bundle suite blinds) blobs).1
  unfolding check_signatures_verify check_credentials prepared_bundle finalize_all verdict
  check_signatures_verify-honest blinds blobs h =
      let (cs, made, good) = finalize_each-verifies blinds blobs h in
      let counted =
        (==_iff (length blobs) (length blinds)).1 (AreSignaturesOf-count blinds blobs h) in
      let all_done : finalize_all suite blinds blobs ≡ some cs =
        rw (finalize_all, counted, made) refl in
      (
        rw (check_credentials, all_done, none_invalid blinds cs good),
        rw (check_credentials, all_done) good,
      )
