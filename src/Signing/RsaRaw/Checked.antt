-- ===== src/Signing/RsaRaw/Checked.antt =====
-- What the raw step guarantees of a signature that it returns.
use credentials_issuer.Prelude.{
  ℕ, ◌≡◌, ◌<◌, ◌≤◌, ◌↔◌, subst, false, inl, inr, arith, leb, ◌===◌, eq-text, eq-text-true,
  Bool-cases, le→leb,
}
use credentials_issuer.Prelude.Result.{ok, err, error, Result-cases}
use credentials_issuer.Errors.Base64.{Bytes}
use credentials_issuer.Signing.RsaRaw.{
  RsaKey, as_integer, modulus_of, decrypted_or_error, out_of_range, raw_sign,
}

-- A message below the modulus, whose private operation succeeded and was undone by the public one.
pub record IsChecked (key : RsaKey) (message signature : Bytes) : Type 0 where
  pub modulus : ℕ
  pub known : modulus_of key ≡ ok modulus
  pub in_range : as_integer message < modulus
  pub computed : decrypted_or_error (key.private_decrypt message) ≡ ok signature
  pub undone : key.public_encrypt signature ≡ message

raw_sign_sound :
    (key : RsaKey) (message signature : Bytes)
    → raw_sign key message ≡ ok signature
    → IsChecked key message signature
unfolding raw_sign
raw_sign_sound key message signature h = elim (Result-cases (modulus_of key)) [
  | inr (f, bad) ↦ ground arith
  | inl (modulus, known) ↦ elim (Bool-cases (leb modulus (as_integer message))) [
    | inl large ↦ ground arith
    | inr small ↦ elim (Result-cases (decrypted_or_error (key.private_decrypt message))) [
      | inr (f, bad) ↦ ground arith
      | inl (made, computed) ↦ elim (Bool-cases (key.public_encrypt made === message)) [
        | inr wrong ↦ ground arith
        | inl undone ↦
            let same : made ≡ signature = ground arith in
            subst (IsChecked key message) same (record {
              modulus = modulus;
              known = known;
              in_range = ground arith;
              computed = computed;
              undone = eq-text-true undone;
            })
      ]
    ]
  ]
]

-- The raw step returns a signature exactly if the message is below the modulus, the private
-- operation gave that signature, and the public operation takes it back to the message.
pub raw_sign_iff :
    (key : RsaKey) (message signature : Bytes)
    → (raw_sign key message ≡ ok signature) ↔ IsChecked key message signature
unfolding raw_sign
raw_sign_iff key message signature = (
  raw_sign_sound key message signature,
  λ c.
      let small : leb c.modulus (as_integer message) ≡ false = ground (arith, c.in_range) in
      rw (c.known, small, c.computed, (eq-text (key.public_encrypt signature) message).1 c.undone),
)

-- A message that is not below the modulus is refused in the words that the blind signer looks for.
pub raw_sign-out_of_range :
    (key : RsaKey) (modulus : ℕ) (message : Bytes)
    → modulus_of key ≡ ok modulus
    → modulus ≤ as_integer message
    → raw_sign key message ≡ err (error out_of_range)
unfolding raw_sign
raw_sign-out_of_range key modulus message known large =
    rw (known, le→leb modulus (as_integer message) large)
