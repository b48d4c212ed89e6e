-- ===== src/Signing/Suite/Known.antt =====
-- When the fast path is trusted.
use credentials_issuer.Prelude.{
  ◌≡◌, ◌↔◌, refl, sym, subst, Bool, true, false, inl, inr, ◌===◌, eq-text, eq-text-true, Bool-cases,
  if◌then◌else◌,
}
use credentials_issuer.Prelude.Result.{Result, ok, err}
use credentials_issuer.Errors.Base64.{Bytes}
use credentials_issuer.Signing.Suite.{
  KnownAnswer, SuiteSelection, SuiteTools, choose, select_signing_suite,
}

-- The suite of a selection is the one that its flag says.
abbrev pub IsFlagged : SuiteTools → SuiteSelection → Type 0
IsFlagged tools selection =
    selection.suite ≡ (if selection.fast_path then tools.fast else tools.slow)

-- The known signature was reproduced.
abbrev pub Reproduced : SuiteTools → KnownAnswer → Result Bytes → Type 0
Reproduced tools known r =
    (produced : Bytes) × (r ≡ ok produced) × (tools.to_hex produced ≡ known.blind_sig_hex)

choose_iff :
    (tools : SuiteTools) (known : KnownAnswer) (r : Result Bytes)
    → (((choose tools known r).fast_path ≡ true) ↔ Reproduced tools known r)
      × IsFlagged tools (choose tools known r)
unfolding choose
choose_iff tools known (err failure) = ((λ h. cc h, λ (produced, made, same). cc made), refl)
choose_iff tools known (ok produced) =
    elim (Bool-cases (tools.to_hex produced === known.blind_sig_hex)) [
      | inl good ↦ rw (choose, good) ((λ h. (produced, refl, eq-text-true good), λ r. refl), refl)
      | inr bad ↦
          rw (choose, bad)
            (
              (
                λ h. cc h,
                λ (other, made, same).
                    let equal : produced ≡ other = cc made in
                    let hit =
                      (eq-text (tools.to_hex produced) known.blind_sig_hex).1
                        (subst (λ b. tools.to_hex b ≡ known.blind_sig_hex) (sym equal) same) in
                    cc (hit, bad),
              ),
              refl,
            )
    ]

-- The fast path is taken exactly if the configuration asks for it and its suite reproduces the known
-- signature; the suite that is used is then the fast one, and otherwise the slow one.
pub select_signing_suite_iff :
    (tools : SuiteTools) (known : KnownAnswer) (use_native_rsa : Bool)
    → (((select_signing_suite tools known use_native_rsa).fast_path ≡ true) ↔ (
        (use_native_rsa ≡ true)
        × Reproduced tools known
            (tools.fast (tools.hex known.private_key_pkcs8_hex) (tools.hex known.blinded_msg_hex))))
      × IsFlagged tools (select_signing_suite tools known use_native_rsa)
unfolding select_signing_suite
select_signing_suite_iff tools known false = ((λ h. cc h, λ (used, rest). cc used), refl)
select_signing_suite_iff tools known true =
    let (chosen, flagged) = choose_iff tools known _ in
    ((λ h. (refl, chosen.0 h), λ (used, r). chosen.1 r), flagged)
