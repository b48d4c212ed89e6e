-- ===== src/Harness/Conformance.antt =====
-- packages/buyer-harness/src/conformance.ts. A check keeps its name and verdict; the details are
-- written for people and left out. `date_parse` is `Date.parse` (`none` for NaN), and a prepared
-- bundle is what the blinder hands over, `finalize` being `none` where it throws.
pub mod Checks
pub mod Documents
use credentials_issuer.Prelude.{
  ℕ, Bool, true, false, not, ◌&&◌, Option, none, some, List, [], ◌∷◌, Str, code_units, length, ltb,
  ◌==◌, ◌===◌, all, keep_where, if◌then◌else◌,
}
use credentials_issuer.Prelude.Json.{Json, null, boolean, number, str, arr, items, get}
use credentials_issuer.Errors.Base64.{Bytes, decode_strict_base64}
use credentials_issuer.Issuance.Request.{array_of, non_empty_string}

pub record CheckResult : Type 0 where
  pub name : Str
  pub passed : Bool

pub record ConformanceReport : Type 0 where
  pub checks : List CheckResult
  pub passed : Bool

pub record BundleParameters : Type 0 where
  pub bundle_size : ℕ
  pub blank_size_bytes : ℕ
  pub signature_size_bytes : ℕ

unfoldable pub report : List CheckResult → ConformanceReport
report checks = record { checks = checks; passed = all (λ c. c.passed) checks }

unfoldable pub failures : ConformanceReport → List CheckResult
failures judged = keep_where (λ c. not c.passed) judged.checks

-- `test ? pass(name, ..) : fail(name, ..)`.
unfoldable pub verdict : Str → Bool → CheckResult
verdict name passed = record { name = name; passed = passed }

-- The same tests as those of the issuer's decoder.
pub decode_strict : Json → Option Bytes
decode_strict value = decode_strict_base64 value

-- A blob that `flatMap` turns into a complaint.
pub is_offender : ℕ → Json → Bool
unfolding decode_strict
is_offender expected_bytes blob = elim (decode_strict blob) [
  | none ↦ true
  | some decoded ↦ not (length decoded == expected_bytes)
]

pub check_signature_size : List Json → ℕ → CheckResult
unfolding is_offender verdict
check_signature_size blobs expected_bytes =
    verdict (code_units "signature size")
      (length (keep_where (is_offender expected_bytes) blobs) == 0)

pub is_text : Str → Option Json → Bool
is_text expected (some (str s)) = s === expected
is_text expected _ = false

-- `===` on values that are no objects; two objects of two texts are never the same.
pub strictly_equal : Option Json → Option Json → Bool
strictly_equal none none = true
strictly_equal (some null) (some null) = true
strictly_equal (some (boolean a)) (some (boolean b)) = if a then b else not b
strictly_equal (some (number s)) (some (number t)) = s === t
strictly_equal (some (str s)) (some (str t)) = s === t
strictly_equal _ _ = false

pub check_blobs : Json → Option Json → BundleParameters → Option (List Json) → ConformanceReport
unfolding check_signature_size verdict strictly_equal
check_blobs response expected_epoch parameters none =
    report (verdict (code_units "bundle shape") false ∷ [])
check_blobs response expected_epoch parameters (some blobs) = report (
    verdict (code_units "bundle count") (length blobs == parameters.bundle_size)
    ∷ check_signature_size blobs parameters.signature_size_bytes
    ∷ verdict (code_units "epoch echoed")
        (strictly_equal (get response (code_units "epoch")) expected_epoch)
    ∷ [])

pub check_bundle : Json → Option Json → BundleParameters → ConformanceReport
unfolding check_blobs report
check_bundle response expected_epoch parameters =
    check_blobs response expected_epoch parameters
      (array_of (get response (code_units "blind_signatures")))

abbrev pub key_document_fields : List Str
key_document_fields =
    code_units "epoch_id"
    ∷ code_units "not_before"
    ∷ code_units "not_after"
    ∷ code_units "alg"
    ∷ code_units "pubkey"
    ∷ []

-- `typeof document?.[field] !== 'string' || document[field].length === 0`.
pub is_missing : Json → Str → Bool
is_missing document name = elim (non_empty_string (get document name)) [
  | none ↦ true
  | some text ↦ false
]

-- A date of the document, where it is a text.
pub date_of : (Str → Option ℕ) → Option Json → Option ℕ
date_of date_parse (some (str s)) = date_parse s
date_of date_parse _ = none

-- Both finite, and one before the other.
pub is_window : Option ℕ → Option ℕ → Bool
is_window (some not_before) (some not_after) = ltb not_before not_after
is_window _ _ = false

unfoldable pub check_key_document : (Str → Option ℕ) → Json → ConformanceReport
unfolding is_missing date_of is_window is_text report verdict
check_key_document date_parse document =
    if ltb 0 (length (keep_where (is_missing document) key_document_fields))
    then report (verdict (code_units "key document fields") false ∷ [])
    else report (
        verdict (code_units "key document fields") true
        ∷ verdict (code_units "key document suite")
            (is_text (code_units "RSABSSA-SHA384-PSS-Randomized") (get document (code_units "alg")))
        ∷ verdict (code_units "key document validity window") (
            is_window (date_of date_parse (get document (code_units "not_before")))
              (date_of date_parse (get document (code_units "not_after"))))
        ∷ [])

pub record IssuedCredential : Type 0 where
  pub message : Str
  pub signature : Str

pub record PreparedBundle : Type 0 where
  pub blinded_blanks : List Str
  pub finalize : List Json → Option (List IssuedCredential)
  pub verify : IssuedCredential → Bool

unfoldable pub check_credentials :
    PreparedBundle → Option (List IssuedCredential) → CheckResult × List IssuedCredential
unfolding verdict
check_credentials prepared none = (verdict (code_units "signature verifies") false, [])
check_credentials prepared (some credentials) = (
  verdict (code_units "signature verifies")
      (length (keep_where (λ c. not (prepared.verify c)) credentials) == 0),
  credentials,
)

unfoldable pub check_signatures_verify :
    PreparedBundle → List Json → CheckResult × List IssuedCredential
unfolding check_credentials
check_signatures_verify prepared blind_signatures =
    check_credentials prepared (prepared.finalize blind_signatures)
