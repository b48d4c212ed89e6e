-- ===== src/Harness/Outcome.antt =====
-- What the harness throws: the classes that its command line tells apart. Messages are left out.
use credentials_issuer.Prelude.{ℕ, ◌≡◌, refl, Option, ◌⊎◌, inl, inr}
use credentials_issuer.Prelude.Json.{Json}

-- `IssuerRequestError` with its status and code, `PaymentRequiredError`, `TypeError`, and the rest.
pub data HarnessError : Type 0 where
  issuer_request_error : Option ℕ → Option Json → HarnessError
  payment_required_error : HarnessError
  type_error : HarnessError
  other_error : HarnessError

pub data Outcome {ℓ} (A : Type ℓ) : Type ℓ where
  returned : A → Outcome A
  threw : HarnessError → Outcome A

module _ {κ} {B : Type κ} where
  infixl 5 ◌>>=◌
  abbrev pub ◌>>=◌ {ℓ} : {A : Type ℓ} → Outcome A → (A → Outcome B) → Outcome B
  threw e >>= rest = threw e
  returned a >>= rest = rest a

pub Outcome-cases {ℓ} :
    {A : Type ℓ} (o : Outcome A)
    → ((a : A) × (o ≡ returned a)) ⊎ ((e : HarnessError) × (o ≡ threw e))
Outcome-cases (returned a) = inl (a, refl)
Outcome-cases (threw e) = inr (e, refl)
