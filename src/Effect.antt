-- ===== src/Effect.antt =====
-- Asynchronous methods that read and write the stores and may throw: an action takes the stores and
-- returns its result with the stores after it. What was written before a throw stays written, but
-- in a transaction.
use credentials_issuer.Prelude.{Bool, true, false}
use credentials_issuer.Prelude.Result.{Result, ok, err, Failure}

abbrev pub Action {ℓ κ} : Type ℓ → Type κ → Type (ℓ ⊔ κ)
Action S A = S → Result A × S

module _ {ℓ} {S : Type ℓ} where
  abbrev pub pure {κ} : {A : Type κ} → A → Action S A
  pure a s = (ok a, s)

  abbrev pub throw {κ} : {A : Type κ} → Failure → Action S A
  throw e s = (err e, s)

  -- A computation that leaves the stores alone.
  abbrev pub lift {κ} : {A : Type κ} → Result A → Action S A
  lift r s = (r, s)

  abbrev pub gets {κ} : {A : Type κ} → (S → A) → Action S A
  gets f s = (ok (f s), s)

  abbrev pub modify : (S → S) → Action S (Unit {0})
  modify f s = (ok tt, f s)

  abbrev pub continue {κ μ} :
      {A : Type κ} {B : Type μ} → Result A × S → (A → Action S B) → Result B × S
  continue (ok a, s) f = f a s
  continue (err e, s) f = (err e, s)

  infixl 5 ◌>>=◌ ◌>>◌
  abbrev pub ◌>>=◌ {κ μ} : {A : Type κ} {B : Type μ} → Action S A → (A → Action S B) → Action S B
  ◌>>=◌ m f s = continue (m s) f

  abbrev pub ◌>>◌ {κ} : {B : Type κ} → Action S (Unit {0}) → Action S B → Action S B
  m >> k = m >>= λ _. k

  -- `if (!test) throw failure`.
  abbrev pub require : Bool → Failure → Action S (Unit {0})
  require true e s = (ok tt, s)
  require false e s = (err e, s)

  -- `dataSource.transaction`: a throw rolls everything back.
  abbrev roll_back {κ} : {A : Type κ} → S → Result A × S → Result A × S
  roll_back before (ok a, s) = (ok a, s)
  roll_back before (err e, s) = (err e, before)

  abbrev pub transaction {κ} : {A : Type κ} → Action S A → Action S A
  transaction m s = roll_back s (m s)

  -- `try { m } catch (e) { handler(e) }`.
  abbrev handle {κ} : {A : Type κ} → Result A × S → (Failure → Action S A) → Result A × S
  handle (ok a, s) h = (ok a, s)
  handle (err e, s) h = h e s

  abbrev pub catch {κ} : {A : Type κ} → Action S A → (Failure → Action S A) → Action S A
  catch m h s = handle (m s) h
