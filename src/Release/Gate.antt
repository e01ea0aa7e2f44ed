-- ===== src/Release/Gate.antt =====
-- `verify` and `bound` (crates/metralectl-control/src/release.rs): the one way to a
-- `VerifiedRelease`. A set is a list read by membership. The digest of a document (its canonical
-- JSON under SHA-256, through serde_json and sha2) and the signature verifier are parameters.
pub mod Laws
use metralectl.Prelude.{Bool, false, not, ◌&&◌, List, Option, none, some, String, str_eq, all}
use metralectl.Prelude.{Bytes, bytes_eq, has, Result, ok, err, map_err}
use metralectl.Prelude.{require, ◌>>=◌, ◌>>◌}
use metralectl.Hardware.{HardwareClass, classify}
use metralectl.Release.Documents.{
  OciImage, image_eq, revision_eq, ReleaseManifest, WeightFile, ModelRecipe, SignedKind,
  DocumentSignature, RevocationList,
}

-- `digest` of each kind of document that it is called on.
pub record Digests : Type 0 where
  pub manifest : ReleaseManifest → Result String Bytes
  pub recipe : ModelRecipe → Result String Bytes
  pub weights : List WeightFile → Result String Bytes
  pub list : RevocationList → Result String Bytes

-- `SignatureVerifier::verify`: the signer, or why it is not a trusted signature.
abbrev pub SignatureVerifier : Type 0
SignatureVerifier = SignedKind → Bytes → DocumentSignature → Result String Bytes

pub record Revoked : Type 0 where
  pub manifests : List Bytes
  pub receipts : List Bytes
  pub signers : List Bytes

pub record ThisMachine : Type 0 where
  pub accelerator : String
  pub fingerprint : Option Bytes
  pub recipe_model : String

pub data Unverified : Type 0 where
  changed : (expected actual : Bytes) → Unverified
  manifest_revoked : Unverified
  signer_revoked : Bytes → Unverified
  receipts_revoked : Unverified
  unsigned : String → Unverified
  recipe : (at : String) → Unverified
  other_hardware : (release : HardwareClass) (here : Option HardwareClass) → Unverified
  fingerprint_not_qualified : Unverified
  model : (release here : String) → Unverified

pub record VerifiedRelease : Type 0 where
  pub digest : Bytes
  pub image : OciImage
  pub model : String
  pub signer : Bytes

-- Whether a digest was made and is this one: `digest(…).ok() == Some(…)`.
abbrev pub is_digest : Result String Bytes → Bytes → Bool
is_digest (ok d) expected = bytes_eq d expected
is_digest (err why) expected = false

-- Whether the classified machine is of the class.
abbrev pub is_class : Option HardwareClass → HardwareClass → Bool
is_class none class = false
is_class (some here) class = str_eq here class

abbrev pub is_covered : Option Bytes → List Bytes → Bool
is_covered none fingerprints = false
is_covered (some fp) fingerprints = has bytes_eq fingerprints fp

-- Whether the shipped recipe is the one that `manifest` binds.
unfoldable pub bound : Digests → ReleaseManifest → ModelRecipe → Result Unverified (Unit {0})
bound digests manifest shipped = do
  require (is_digest (digests.recipe shipped) manifest.recipe) (Unverified.recipe "/recipe")
  require (revision_eq shipped.model.source manifest.model.source)
      (Unverified.recipe "/model/source")
  require (is_digest (digests.weights shipped.model.weights) manifest.model.weights)
      (Unverified.recipe "/model/weights")
  require (image_eq shipped.runtime.image manifest.runtime.image)
      (Unverified.recipe "/runtime/image")
  require (has str_eq shipped.runtime.hardware_classes manifest.hardware.hardware_class)
      (Unverified.recipe "/hardware/hardware_class")

-- The checks of this machine, from `classify` on.
unfoldable pub matched : ReleaseManifest → ThisMachine → Result Unverified (Unit {0})
matched manifest here = do
  let class = classify here.accelerator
  require (is_class class manifest.hardware.hardware_class)
      (Unverified.other_hardware manifest.hardware.hardware_class class)
  require (is_covered here.fingerprint manifest.hardware.fingerprints)
      Unverified.fingerprint_not_qualified
  require (str_eq manifest.model.source.repository here.recipe_model)
      (Unverified.model manifest.model.source.repository here.recipe_model)

-- Verify `manifest` as the release that a deployment names by `expected`.
unfoldable pub verify :
    Digests
    → ReleaseManifest
    → ModelRecipe
    → Bytes
    → DocumentSignature
    → SignatureVerifier
    → Revoked
    → ThisMachine
    → Result Unverified VerifiedRelease
unfolding bound matched
verify digests manifest shipped expected signature verifier revoked here = do
  actual ← map_err Unverified.unsigned (digests.manifest manifest)
  require (bytes_eq actual expected) (Unverified.changed expected actual)
  require (not (has bytes_eq revoked.manifests actual)) Unverified.manifest_revoked
  signer ← map_err Unverified.unsigned (verifier SignedKind.release_manifest actual signature)
  require (not (has bytes_eq revoked.signers signer)) (Unverified.signer_revoked signer)
  require (not (all (has bytes_eq revoked.receipts) manifest.receipts)) Unverified.receipts_revoked
  bound digests manifest shipped
  matched manifest here
  ok (record {
    digest = actual;
    image = manifest.runtime.image;
    model = manifest.model.source.repository;
    signer = signer;
  })
