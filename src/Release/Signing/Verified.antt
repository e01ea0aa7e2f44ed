-- ===== src/Release/Signing/Verified.antt =====
-- Which signatures the registry principals that a host named accept
-- (crates/metralectl-control/src/release/signing.rs).
use metralectl.Prelude.{◌≡◌, sym, ap, ◌∙◌, ◌↔◌, true, List, [], Memᴰ, some, arith, inl, inr}
use metralectl.Prelude.{Bytes, bytes_eq, bytes_eq_iff, ok, Option-cases, find, find-some}
use metralectl.Release.Documents.{SignedKind, DocumentSignature}
use metralectl.Release.Signing.{
  Crypto, signed_string, RegistryPrincipal, node_id, Trusted, new, verify_signature,
}
use metralectl.Release.Signing.Laws.{Trusts, new-ok, behind, found, kind_eq_iff}

module _ (c : Crypto) where
  -- Both halves of the signature verify, under the keys of `p`, over the kind's signed string.
  pub record Signs (p : RegistryPrincipal) (kind : SignedKind) (document : Bytes)
      (signature : DocumentSignature) : Type 0 where
    pub same_kind : signature.kind ≡ kind
    pub same_document : signature.document ≡ document
    pub same_signer : signature.signer ≡ p.node_id
    pub derived : node_id c p.signing ≡ p.node_id
    pub ed : c.EdKey
    pub ed_decoded : c.ed_key p.signing.ed25519 ≡ ok ed
    pub ed_verifies :
        c.verify_strict ed (signed_string kind document) signature.signature.ed25519 ≡ true
    pub ml : c.MlKey
    pub ml_decoded : c.ml_key p.signing.ml_dsa_65 ≡ some ml
    pub ml_half : c.MlSignature
    pub ml_parsed : c.ml_signature signature.signature.ml_dsa_65 ≡ some ml_half
    pub ml_verifies : c.verify_with_context ml (signed_string kind document) [] ml_half ≡ true

  -- What the check has seen of the entry that it found.
  record Checked (ts : List (Trusted c)) (kind : SignedKind) (document : Bytes)
      (signature : DocumentSignature) (s : Bytes) : Type 0 where
    same_kind : signature.kind ≡ kind
    same_document : signature.document ≡ document
    signer : signature.signer ≡ s
    key : Trusted c
    at : find (λ (t : Trusted c). bytes_eq t.id signature.signer) ts ≡ some key
    ed_verifies :
        c.verify_strict key.ed25519 (signed_string kind document) signature.signature.ed25519 ≡ true
    half : c.MlSignature
    parsed : c.ml_signature signature.signature.ml_dsa_65 ≡ some half
    ml_verifies : c.verify_with_context key.ml_dsa_65 (signed_string kind document) [] half ≡ true

  verify_signature-ok :
      (ts : List (Trusted c)) (kind : SignedKind) (document : Bytes) (signature : DocumentSignature)
      (s : Bytes)
      → verify_signature c ts kind document signature ≡ ok s
      → Checked ts kind document signature s
  unfolding verify_signature
  verify_signature-ok ts kind document signature s h =
      elim (Option-cases (find (λ (t : Trusted c). bytes_eq t.id signature.signer) ts)) [
        | inl none_such ↦ absurd (ground arith)
        | inr (key, at) ↦ elim (Option-cases (c.ml_signature signature.signature.ml_dsa_65)) [
          | inl unread ↦ absurd (ground arith)
          | inr (half, parsed) ↦ record {
            same_kind = (kind_eq_iff _ _).0 (ground arith);
            same_document = (bytes_eq_iff _ _).0 (ground arith);
            signer = ground arith;
            key = key;
            at = at;
            ed_verifies = ground arith;
            half = half;
            parsed = parsed;
            ml_verifies = ground arith;
          }
        ]
      ]

  passes :
      (ts : List (Trusted c)) (kind : SignedKind) (document : Bytes) (signature : DocumentSignature)
      (s : Bytes) (p : RegistryPrincipal) (t : Trusted c)
      → Trusts c p t
      → find (λ (t : Trusted c). bytes_eq t.id p.node_id) ts ≡ some t
      → p.node_id ≡ s
      → Signs p kind document signature
      → verify_signature c ts kind document signature ≡ ok s
  unfolding verify_signature
  passes ts kind document signature s p t trusts at is_signer signs =
      let ed : signs.ed ≡ t.ed25519 = ground (arith, signs.ed_decoded, trusts.ed_decoded) in
      let ml : signs.ml ≡ t.ml_dsa_65 = ground (arith, signs.ml_decoded, trusts.ml_decoded) in
      rw
        (
          (kind_eq_iff _ _).1 signs.same_kind,
          (bytes_eq_iff _ _).1 signs.same_document,
          signs.same_signer,
          at,
          ← ed,
          ← ml,
          signs.ed_verifies,
          signs.ml_parsed,
          signs.ml_verifies,
        )
        (ap ok is_signer)

  -- Where the principals were admitted, a document's signature is accepted as the signer's just
  -- when one of them has that identity, derived from its keys, and both halves verify under those
  -- keys over the string of that kind and document.
  pub verify_signature-new :
      (ps : List RegistryPrincipal) (ts : List (Trusted c)) (kind : SignedKind) (document : Bytes)
      (signature : DocumentSignature) (s : Bytes)
      → new c ps ≡ ok ts
      → (verify_signature c ts kind document signature ≡ ok s)
        ↔ ((p : RegistryPrincipal) × Memᴰ p ps × (p.node_id ≡ s) × Signs p kind document signature)
  verify_signature-new ps ts kind document signature s h =
      let (each, distinct) = new-ok c ps ts h in
      (
        λ k.
            let seen = verify_signature-ok ts kind document signature s k in
            let (m, same) =
              find-some (λ (t : Trusted c). bytes_eq t.id signature.signer) ts seen.at in
            let (p, listed, trusts) = behind c ps ts each m in
            let signer : seen.key.id ≡ signature.signer = (bytes_eq_iff _ _).0 same in
            (
              p,
              listed,
              sym trusts.id ∙ signer ∙ seen.signer,
              record {
                same_kind = seen.same_kind;
                same_document = seen.same_document;
                same_signer = sym signer ∙ trusts.id;
                derived = trusts.derived;
                ed = seen.key.ed25519;
                ed_decoded = trusts.ed_decoded;
                ed_verifies = seen.ed_verifies;
                ml = seen.key.ml_dsa_65;
                ml_decoded = trusts.ml_decoded;
                ml_half = seen.half;
                ml_parsed = seen.parsed;
                ml_verifies = seen.ml_verifies;
              },
            ),
        λ (p, listed, is_signer, signs).
            let (t, trusts, at, _) = found c ps ts each distinct listed in
            passes ts kind document signature s p t trusts at is_signer signs,
      )
