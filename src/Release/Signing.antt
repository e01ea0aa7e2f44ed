-- ===== src/Release/Signing.antt =====
-- The document-signature scheme over the registry principals that the host trusts
-- (crates/metralectl-control/src/release/signing.rs). SHA3-256, Ed25519 and ML-DSA-65 are the
-- crates' own, and stand as the operations of a parameter.
pub mod Laws
pub mod Verified
use metralectl.Prelude.{
  ℕ, Bool, not, List, [], ◌∷◌, ◌++◌, Option, none, some, String, ◌<>◌, any, find,
}
use metralectl.Prelude.{
  Bytes, bytes_eq, Result, ok, err, map_err, require, ◌>>=◌, ◌>>◌, codes, true, false,
}
use metralectl.Protocol.Hex.{display}
use metralectl.Release.Documents.{SignedKind, DocumentSignature}

pub record Crypto : Type 1 where
  pub EdKey : Type 0
  pub MlKey : Type 0
  pub MlSignature : Type 0
  pub sha3_256 : Bytes → Bytes
  pub ed_key : Bytes → Result String EdKey
  pub ml_key : Bytes → Option MlKey
  pub verify_strict : EdKey → Bytes → Bytes → Bool
  pub ml_signature : Bytes → Option MlSignature
  pub verify_with_context : MlKey → Bytes → Bytes → MlSignature → Bool

-- `SignedKind::domain`.
abbrev pub domain : SignedKind → Bytes
domain SignedKind.release_manifest = codes "mfs/release-manifest/v1"
domain SignedKind.revocation_list = codes "mfs/revocation-list/v1"

-- `{kind:?}`.
abbrev pub kind_name : SignedKind → String
kind_name SignedKind.release_manifest = "ReleaseManifest"
kind_name SignedKind.revocation_list = "RevocationList"

abbrev pub kind_eq : SignedKind → SignedKind → Bool
kind_eq SignedKind.release_manifest SignedKind.release_manifest = true
kind_eq SignedKind.release_manifest SignedKind.revocation_list = false
kind_eq SignedKind.revocation_list SignedKind.release_manifest = false
kind_eq SignedKind.revocation_list SignedKind.revocation_list = true

-- `domain ‖ digest`, the string that both halves sign.
unfoldable pub signed_string : SignedKind → Bytes → Bytes
signed_string kind document = domain kind ++ document

pub record SigningKeys : Type 0 where
  pub ed25519 : Bytes
  pub ml_dsa_65 : Bytes

pub record RegistryPrincipal : Type 0 where
  pub node_id : Bytes
  pub signing : SigningKeys

-- `ok_or`.
abbrev pub ok_or : {A : Type 0} → String → Option A → Result String A
ok_or why none = err why
ok_or why (some a) = ok a

abbrev pub who : RegistryPrincipal → String
who p = "registry principal " <> display p.node_id

abbrev pub bad_ed_key : RegistryPrincipal → String → String
bad_ed_key p e = who p <> ": Ed25519 key: " <> e

abbrev pub bad_ml_key : RegistryPrincipal → String
bad_ml_key p = who p <> ": ML-DSA-65 key"

module _ (c : Crypto) where
  -- `SigningKeys::node_id`: the identity that the keys derive.
  unfoldable pub node_id : SigningKeys → Bytes
  node_id keys = c.sha3_256 (codes "mfs/node-id/v1" ++ keys.ed25519 ++ keys.ml_dsa_65)

  pub record Trusted : Type 0 where
    pub id : Bytes
    pub ed25519 : c.EdKey
    pub ml_dsa_65 : c.MlKey

  -- One round of `new`: the principal with its keys decoded.
  unfoldable pub admit : List Trusted → RegistryPrincipal → Result String Trusted
  unfolding node_id
  admit trusted p = do
    require (bytes_eq (node_id p.signing) p.node_id)
        (who p <> " has keys of " <> display (node_id p.signing))
    require (not (any (λ t. bytes_eq t.id p.node_id) trusted)) (who p <> " is listed twice")
    ed25519 ← map_err (bad_ed_key p) (c.ed_key p.signing.ed25519)
    ml_dsa_65 ← ok_or (bad_ml_key p) (c.ml_key p.signing.ml_dsa_65)
    ok (record { id = p.node_id; ed25519 = ed25519; ml_dsa_65 = ml_dsa_65 })

  unfoldable pub admit_all : List Trusted → List RegistryPrincipal → Result String (List Trusted)
  unfolding admit
  admit_all trusted [] = ok trusted
  admit_all trusted (p ∷ ps) = admit trusted p >>= λ t. admit_all (trusted ++ t ∷ []) ps

  -- `RegistryPrincipals::new`.
  unfoldable pub new : List RegistryPrincipal → Result String (List Trusted)
  unfolding admit_all
  new [] = err "no registry principal is trusted: name at least one"
  new (p ∷ ps) = admit_all [] (p ∷ ps)

  -- `verify` of the trusted principals.
  unfoldable pub verify_signature :
      List Trusted → SignedKind → Bytes → DocumentSignature → Result String Bytes
  unfolding signed_string
  verify_signature principals kind document signature = do
    require (kind_eq signature.kind kind)
        ("the signature is over a " <> kind_name signature.kind <> ", not a " <> kind_name kind)
    require (bytes_eq signature.document document)
        ("the signature is over " <> display signature.document <> ", not " <> display document)
    key ←
        ok_or (display signature.signer <> " is not a trusted registry principal")
          (find (λ t. bytes_eq t.id signature.signer) principals)
    let signed = signed_string kind document
    require (c.verify_strict key.ed25519 signed signature.signature.ed25519)
        "the Ed25519 half does not verify"
    ml ←
        ok_or "the ML-DSA-65 half is not an encoded signature"
          (c.ml_signature signature.signature.ml_dsa_65)
    require (c.verify_with_context key.ml_dsa_65 signed [] ml) "the ML-DSA-65 half does not verify"
    ok signature.signer
