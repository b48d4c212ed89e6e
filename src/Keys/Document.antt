-- ===== src/Keys/Document.antt =====
-- `canonicalKeyDocument` of keys/keyring.ts: the text whose UTF-8 bytes `root_sig` covers.
use credentials_issuer.Prelude.{List, [], ◌∷◌, ◌≡◌, refl, Str, code_units, arith}
use credentials_issuer.Stringify.{stringify}
use credentials_issuer.Stringify.Injective.{IsText, SameKeys, stringify-injective}
use credentials_issuer.Keys.Keyring.{PublishedDocument}

abbrev signed_fields : PublishedDocument → List (Str × Str)
signed_fields document =
    (code_units "alg", document.alg)
    ∷ (code_units "epoch_id", document.epoch_id)
    ∷ (code_units "not_after", document.not_after)
    ∷ (code_units "not_before", document.not_before)
    ∷ (code_units "pubkey", document.pubkey)
    ∷ []

unfoldable pub canonical_key_document : PublishedDocument → Str
canonical_key_document document = stringify (signed_fields document)

pub record IsTextDocument (document : PublishedDocument) : Type 0 where
  pub alg : IsText document.alg
  pub epoch_id : IsText document.epoch_id
  pub not_after : IsText document.not_after
  pub not_before : IsText document.not_before
  pub pubkey : IsText document.pubkey

-- What the root key signs stands for one document: two documents whose fields are texts of code
-- units and whose signed texts agree have the same suite, epoch, window and key.
pub canonical_key_document-injective :
    (a b : PublishedDocument)
    → IsTextDocument a
    → IsTextDocument b
    → canonical_key_document a ≡ canonical_key_document b
    → (a.alg ≡ b.alg)
      × (a.epoch_id ≡ b.epoch_id)
      × (a.not_after ≡ b.not_after)
      × (a.not_before ≡ b.not_before)
      × (a.pubkey ≡ b.pubkey)
unfolding canonical_key_document
canonical_key_document-injective a b ha hb e =
    let keys : SameKeys (signed_fields a) (signed_fields b) = (
      refl,
      omega arith,
      ha.alg,
      hb.alg,
      (
        refl,
        omega arith,
        ha.epoch_id,
        hb.epoch_id,
        (
          refl,
          omega arith,
          ha.not_after,
          hb.not_after,
          (
            refl,
            omega arith,
            ha.not_before,
            hb.not_before,
            (refl, omega arith, ha.pubkey, hb.pubkey, tt),
          ),
        ),
      ),
    ) in
    let same = stringify-injective (signed_fields a) (signed_fields b) keys e in
    ground (arith, same)
