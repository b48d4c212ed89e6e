-- ===== src/Harness/Conformance/Documents.antt =====
-- What a key document is that passes the checks of the harness.
use credentials_issuer.Prelude.{
  ℕ, ◌≡◌, ◌<◌, refl, ◌∙◌, ◌&&◌, ap, true, false, Option, some, List, [], ◌∷◌, Str, code_units, All,
  length, all, arith, inl, inr, keep_where, ltb, eq-text-true, Bool-cases, Option-cases,
}
use credentials_issuer.Prelude.Json.{Json, str, get}
use credentials_issuer.Issuance.Request.{non_empty_string}
use credentials_issuer.Harness.Conformance.{
  report, verdict, key_document_fields, is_missing, is_text, date_of, is_window, check_key_document,
}

-- A field is there, and is a text that is not empty.
abbrev pub HasText : Json → Str → Type 0
HasText document name = (c : ℕ) × (s : Str) × (get document name ≡ some (str (c ∷ s)))

-- All fields are texts, the suite is the one of the harness, and the window is not empty.
pub record IsKeyDocument (date_parse : Str → Option ℕ) (document : Json) : Type 0 where
  pub complete : All (HasText document) key_document_fields
  pub suite :
      get document (code_units "alg") ≡ some (str (code_units "RSABSSA-SHA384-PSS-Randomized"))
  pub begins : ℕ
  pub ends : ℕ
  pub not_before : date_of date_parse (get document (code_units "not_before")) ≡ some begins
  pub not_after : date_of date_parse (get document (code_units "not_after")) ≡ some ends
  pub lasts : begins < ends

text_of :
    (o : Option Json) (t : Str)
    → non_empty_string o ≡ some t
    → (c : ℕ) × (s : Str) × (o ≡ some (str (c ∷ s)))
unfolding non_empty_string
text_of (some (str (c ∷ s))) t h = (c, s, refl)
text_of _ t h = cc h

is_missing-HasText :
    (document : Json) (name : Str) → is_missing document name ≡ false → HasText document name
unfolding is_missing
is_missing-HasText document name h = elim (Option-cases (non_empty_string (get document name))) [
  | inl absent ↦ ground arith
  | inr (t, there) ↦ text_of (get document name) t there
]

none_missing :
    (document : Json) (names : List Str)
    → length (keep_where (is_missing document) names) ≡ 0
    → All (HasText document) names
none_missing document [] h = tt
none_missing document (name ∷ names) h = elim (Bool-cases (is_missing document name)) [
  | inl missing ↦ ground arith
  | inr there ↦ (is_missing-HasText document name there, none_missing document names (ground arith))
]

is_text-true :
    (expected : Str) (o : Option Json) → is_text expected o ≡ true → o ≡ some (str expected)
unfolding is_text
is_text-true expected (some (str s)) h = ap (λ t. some (str t)) (eq-text-true h)
is_text-true expected _ h = cc h

is_window-true :
    (a b : Option ℕ)
    → is_window a b ≡ true
    → (begins : ℕ) × (ends : ℕ) × (a ≡ some begins) × (b ≡ some ends) × (begins < ends)
unfolding is_window
is_window-true (some begins) (some ends) h = (begins, ends, refl, refl, ground arith)
is_window-true _ _ h = cc h

pub check_key_document-IsKeyDocument :
    (date_parse : Str → Option ℕ) (document : Json)
    → (check_key_document date_parse document).passed ≡ true
    → IsKeyDocument date_parse document
unfolding check_key_document report verdict
check_key_document-IsKeyDocument date_parse document h =
    elim (Bool-cases (ltb 0 (length (keep_where (is_missing document) key_document_fields)))) [
      | inl some_missing ↦ ground (arith, some_missing)
      | inr complete ↦
          let a = date_of date_parse (get document (code_units "not_before")) in
          let b = date_of date_parse (get document (code_units "not_after")) in
          let there : length (keep_where (is_missing document) key_document_fields) ≡ 0 =
            ground (arith, complete) in
          let judged : (is_text (code_units "RSABSSA-SHA384-PSS-Randomized")
                  (get document (code_units "alg"))
                && (is_window a b && true))
              ≡ true =
            (rw (complete) refl) ∙ h in
          let suite : is_text (code_units "RSABSSA-SHA384-PSS-Randomized")
                (get document (code_units "alg"))
              ≡ true =
            ground arith in
          let (begins, ends, not_before, not_after, lasts) =
            is_window-true a b (ground (arith, judged)) in
          record {
            complete = none_missing document key_document_fields there;
            suite = is_text-true _ (get document (code_units "alg")) suite;
            begins = begins;
            ends = ends;
            not_before = not_before;
            not_after = not_after;
            lasts = lasts;
          }
    ]

-- The verdict of the report is that of its checks.
pub key_document_passed :
    (date_parse : Str → Option ℕ) (document : Json)
    → all (λ c. c.passed) (check_key_document date_parse document).checks ≡ true
    → (check_key_document date_parse document).passed ≡ true
unfolding check_key_document report
key_document_passed date_parse document h =
    elim (Bool-cases (ltb 0 (length (keep_where (is_missing document) key_document_fields)))) [
      | inl missing ↦ ground (arith, missing)
      | inr complete ↦ ground (arith, complete)
    ]
