-- ===== src/Harness/Conformance/Checks.antt =====
-- What the checks of the harness mean, and that the issuer's bundles pass them.
use credentials_issuer.Prelude.{
  ℕ, ◌≡◌, ◌↔◌, refl, ◌∙◌, ap, true, false, Option, some, List, [], ◌∷◌, Str, code_units, All,
  length, all, arith, inl, inr, keep_where, ◌==◌, ==_iff, eq-text, eq-text-true, ◌&&◌, Bool-cases,
  Option-cases,
}
use credentials_issuer.Prelude.Json.{Json, str, get}
use credentials_issuer.Errors.Base64.{Bytes, decode_strict_base64}
use credentials_issuer.Issuance.Request.{array_of}
use credentials_issuer.Harness.Conformance.{
  BundleParameters, report, verdict, is_offender, decode_strict, check_signature_size,
  strictly_equal, check_blobs, check_bundle,
}

-- A blob of the expected size.
abbrev pub IsBlob : ℕ → Json → Type 0
IsBlob size blob =
    (bytes : Bytes) × (decode_strict_base64 blob ≡ some bytes) × (length bytes ≡ size)

is_offender_iff : (size : ℕ) (blob : Json) → (is_offender size blob ≡ false) ↔ IsBlob size blob
unfolding is_offender decode_strict
is_offender_iff size blob = elim (Option-cases (decode_strict_base64 blob)) [
  | inl bad ↦ (λ h. ground arith, λ (bytes, good, same). cc (bad, good))
  | inr (bytes, good) ↦ (
    λ h. (bytes, good, ground arith),
    λ (other, read, same).
        let equal : bytes ≡ other = cc (good, read) in
        rw (is_offender, good, equal, same) (ground arith),
  )
]

no_offenders_iff :
    (size : ℕ) (blobs : List Json)
    → ((length (keep_where (is_offender size) blobs) == 0) ≡ true) ↔ All (IsBlob size) blobs
no_offenders_iff size [] = (λ h. tt, λ h. refl)
no_offenders_iff size (blob ∷ blobs) = elim (Bool-cases (is_offender size blob)) [
  | inl bad ↦ (λ h. ground arith, λ (here, rest). cc ((is_offender_iff size blob).1 here, bad))
  | inr good ↦ (
    λ h.
        let counted : (length (keep_where (is_offender size) blobs) == 0) ≡ true = ground arith in
        ((is_offender_iff size blob).0 good, (no_offenders_iff size blobs).0 counted),
    λ (here, rest).
        let counted : (length (keep_where (is_offender size) blobs) == 0) ≡ true =
          (no_offenders_iff size blobs).1 rest in
        rw good counted,
  )
]

strictly_equal-text :
    (expected : Str) (value : Option Json)
    → (strictly_equal value (some (str expected)) ≡ true) ↔ (value ≡ some (str expected))
unfolding strictly_equal
strictly_equal-text expected (some (str s)) = (
  λ h. ap (λ t. some (str t)) (eq-text-true h),
  λ h. let same : s ≡ expected = cc h in (eq-text s expected).1 same,
)
strictly_equal-text expected _ = (λ h. cc h, λ h. cc h)

-- What a bundle has to be: as many blobs as configured, each strictly decoding to the configured
-- size, and the epoch that was asked for.
pub record IsConforming (response : Json) (epoch : Str) (parameters : BundleParameters)
    : Type 0 where
  pub blobs : List Json
  pub listed : array_of (get response (code_units "blind_signatures")) ≡ some blobs
  pub count : length blobs ≡ parameters.bundle_size
  pub sizes : All (IsBlob parameters.signature_size_bytes) blobs
  pub echoed : get response (code_units "epoch") ≡ some (str epoch)

check_bundle-IsConforming :
    (response : Json) (epoch : Str) (parameters : BundleParameters)
    → (check_bundle response (some (str epoch)) parameters).passed ≡ true
    → IsConforming response epoch parameters
unfolding check_bundle check_blobs report verdict check_signature_size
check_bundle-IsConforming response epoch parameters h =
    elim (Option-cases (array_of (get response (code_units "blind_signatures")))) [
      | inl none_there ↦ ground arith
      | inr (blobs, listed) ↦
          let size = parameters.signature_size_bytes in
          let judged : ((length blobs == parameters.bundle_size)
                && ((length (keep_where (is_offender size) blobs) == 0)
                    && (strictly_equal (get response (code_units "epoch")) (some (str epoch))
                        && true)))
              ≡ true =
            (rw (check_blobs, listed) refl) ∙ h in
          record {
            blobs = blobs;
            listed = listed;
            count = ground arith;
            sizes = (no_offenders_iff size blobs).0 (ground arith);
            echoed = (strictly_equal-text epoch _).0 (ground arith);
          }
    ]

-- A bundle passes the harness's checks exactly if it conforms.
pub check_bundle_iff :
    (response : Json) (epoch : Str) (parameters : BundleParameters)
    → ((check_bundle response (some (str epoch)) parameters).passed ≡ true)
      ↔ IsConforming response epoch parameters
unfolding check_bundle check_blobs report verdict check_signature_size
check_bundle_iff response epoch parameters = (
  check_bundle-IsConforming response epoch parameters,
  λ c. rw (
    check_blobs,
    c.listed,
    (==_iff (length c.blobs) parameters.bundle_size).1 c.count,
    (no_offenders_iff parameters.signature_size_bytes c.blobs).1 c.sizes,
    (strictly_equal-text epoch _).1 c.echoed,
  ),
)

-- The verdict of the report is that of its checks.
pub bundle_passed :
    (response : Json) (epoch : Option Json) (parameters : BundleParameters)
    → all (λ c. c.passed) (check_bundle response epoch parameters).checks ≡ true
    → (check_bundle response epoch parameters).passed ≡ true
unfolding check_bundle check_blobs report
bundle_passed response epoch parameters h =
    elim (Option-cases (array_of (get response (code_units "blind_signatures")))) [
      | inl absent ↦ ground arith
      | inr (blobs, listed) ↦ ground arith
    ]
