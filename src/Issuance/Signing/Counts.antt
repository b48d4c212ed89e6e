-- ===== src/Issuance/Signing/Counts.antt =====
-- A bundle has one signature for each blank, each of them made from its blank.
use credentials_issuer.Prelude.{
  ◌≡◌, refl, ap, suc, List, [], ◌∷◌, Str, subst, arith, length, inl, inr,
}
use credentials_issuer.Prelude.Result.{Result, ok, Result-cases}
use credentials_issuer.Issuance.Request.{BundleRequest}
use credentials_issuer.Issuance.Signing.{BundleResponse, sign_all, sign_bundle}

-- Signature by signature, in the order of the blanks.
abbrev pub AreSigned : (Str → Result Str) → List Str → List Str → Type 0
AreSigned sign [] [] = Unit
AreSigned sign (b ∷ bs) (s ∷ ss) = (sign b ≡ ok s) × AreSigned sign bs ss
AreSigned sign _ _ = ⊥

sign_all_sound :
    (sign : Str → Result Str) (bs ss : List Str) → sign_all sign bs ≡ ok ss → AreSigned sign bs ss
unfolding sign_all
sign_all_sound sign [] [] h = tt
sign_all_sound sign [] (s ∷ ss) h = cc
sign_all_sound sign (b ∷ bs) ss h = elim (Result-cases (sign b)) [
  | inr (f, e) ↦ ground arith
  | inl (t, e) ↦ elim (Result-cases (sign_all sign bs)) [
    | inr (f, g) ↦ ground arith
    | inl (ts, g) ↦
        let same : t ∷ ts ≡ ss = ground arith in
        subst (AreSigned sign (b ∷ bs)) same (e, sign_all_sound sign bs ts g)
  ]
]

length-AreSigned :
    (sign : Str → Result Str) (bs ss : List Str) → AreSigned sign bs ss → length ss ≡ length bs
length-AreSigned sign [] [] h = refl
length-AreSigned sign (b ∷ bs) (s ∷ ss) (_, h) = ap suc (length-AreSigned sign bs ss h)
length-AreSigned sign [] (s ∷ ss) h = absurd h
length-AreSigned sign (b ∷ bs) [] h = absurd h

-- A signed bundle names the epoch of the request, and signs its blanks one by one.
pub record IsSigned (sign : Str → Str → Result Str) (request : BundleRequest)
    (response : BundleResponse) : Type 0 where
  pub epoch : response.epoch ≡ request.epoch
  pub signatures : AreSigned (sign request.epoch) request.blinded_blanks response.blind_signatures

pub sign_bundle-IsSigned :
    (sign : Str → Str → Result Str) (request : BundleRequest) (response : BundleResponse)
    → sign_bundle sign request ≡ ok response
    → IsSigned sign request response
unfolding sign_bundle
sign_bundle-IsSigned sign request response h =
    elim (Result-cases (sign_all (sign request.epoch) request.blinded_blanks)) [
      | inr (f, e) ↦ ground arith
      | inl (signatures, e) ↦
          let signed : BundleResponse = record {
            epoch = request.epoch;
            blind_signatures = signatures;
          } in
          let same : signed ≡ response = ground arith in
          subst (IsSigned sign request) same (record {
            epoch = refl;
            signatures = sign_all_sound (sign request.epoch) request.blinded_blanks signatures e;
          })
    ]

pub IsSigned-count :
    {sign : Str → Str → Result Str} {request : BundleRequest} {response : BundleResponse}
    → IsSigned sign request response
    → length response.blind_signatures ≡ length request.blinded_blanks
IsSigned-count s = length-AreSigned _ _ _ s.signatures
