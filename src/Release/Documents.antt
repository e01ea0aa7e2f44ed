-- ===== src/Release/Documents.antt =====
-- The platform's documents that a release is verified over
-- (crates/metralectl-control/src/platform/scalars.rs, release.rs, recipe.rs, signature.rs and
-- revocation.rs). A `version` is always 1 and has no field; ids and digests are their bytes.
use metralectl.Prelude.{ℕ, List, String, Bytes, Bool, ◌&&◌, str_eq, bytes_eq}
use metralectl.Hardware.{HardwareClass}

pub record ArtifactRef : Type 0 where
  pub uri : String
  pub sha256 : Bytes

pub record OciImage : Type 0 where
  pub repository : String
  pub digest : String

abbrev pub image_eq : OciImage → OciImage → Bool
image_eq a b = str_eq a.repository b.repository && str_eq a.digest b.digest

pub record ModelRevision : Type 0 where
  pub repository : String
  pub revision : Bytes

abbrev pub revision_eq : ModelRevision → ModelRevision → Bool
revision_eq a b = str_eq a.repository b.repository && bytes_eq a.revision b.revision

pub record ReleaseRuntime : Type 0 where
  pub git_commit : Bytes
  pub image : OciImage

pub record ReleaseModel : Type 0 where
  pub source : ModelRevision
  pub weights : Bytes

pub record ReleaseHardware : Type 0 where
  pub hardware_class : HardwareClass
  pub fingerprints : List Bytes

pub data SbomFormat : Type 0 where
  spdx_json : SbomFormat
  cyclonedx_json : SbomFormat

pub record Sbom : Type 0 where
  pub format : SbomFormat
  pub artifact : ArtifactRef

pub record ReleaseManifest : Type 0 where
  pub release : String
  pub created_at_unix_ms : ℕ
  pub runtime : ReleaseRuntime
  pub recipe : Bytes
  pub model : ReleaseModel
  pub hardware : ReleaseHardware
  pub sbom : Sbom
  pub receipts : List Bytes

pub record WeightFile : Type 0 where
  pub path : String
  pub sha256 : Bytes
  pub bytes : ℕ

pub record RecipeModel : Type 0 where
  pub source : ModelRevision
  pub weights : List WeightFile

pub record Architecture : Type 0 where
  pub family : String
  pub tokenizer : ArtifactRef
  pub chat_template : ArtifactRef

pub data StoragePrecision : Type 0 where
  bf16 : StoragePrecision
  fp16 : StoragePrecision
  fp8 : StoragePrecision
  nvfp4 : StoragePrecision
  mxfp4 : StoragePrecision
  int8 : StoragePrecision
  int4 : StoragePrecision

pub data Precision : Type 0 where
  bf16 : Precision
  fp16 : Precision
  fp8 : Precision
  nvfp4 : Precision
  mxfp4 : Precision
  int8 : Precision
  int4 : Precision
  adaptive : Precision

pub record Quantization : Type 0 where
  pub weights : StoragePrecision
  pub activations : Precision
  pub kv_cache : StoragePrecision

pub record Limits : Type 0 where
  pub max_context_tokens : ℕ
  pub max_concurrent_sequences : ℕ
  pub gpu_memory_permille : ℕ

pub data Engine : Type 0 where
  metrale : Engine
  sim : Engine
  vllm : Engine
  sglang : Engine

pub record RecipeRuntime : Type 0 where
  pub engine : Engine
  pub image : OciImage
  pub hardware_classes : List HardwareClass
  pub min_nodes : ℕ
  pub serve_flags : List (String × String)
  pub env : List (String × String)

-- A supported capability names the parser it is served through.
pub data Capability : Type 0 where
  unsupported : Capability
  supported : (parser : String) → Capability

pub data Modality : Type 0 where
  text : Modality
  image : Modality
  audio : Modality
  video : Modality

pub record Semantics : Type 0 where
  pub tool_calls : Capability
  pub structured_output : Capability
  pub reasoning : Capability
  pub input_modalities : List Modality
  pub output_modalities : List Modality

pub data EvidenceKind : Type 0 where
  benchmark : EvidenceKind
  coherence : EvidenceKind
  certification : EvidenceKind

pub record Evidence : Type 0 where
  pub kind : EvidenceKind
  pub artifact : ArtifactRef

pub record ModelRecipe : Type 0 where
  pub recipe_id : String
  pub model : RecipeModel
  pub architecture : Architecture
  pub quantization : Quantization
  pub limits : Limits
  pub runtime : RecipeRuntime
  pub semantics : Semantics
  pub evidence : List Evidence

pub data SignedKind : Type 0 where
  release_manifest : SignedKind
  revocation_list : SignedKind

pub record HybridSignature : Type 0 where
  pub ed25519 : Bytes
  pub ml_dsa_65 : Bytes

pub record DocumentSignature : Type 0 where
  pub kind : SignedKind
  pub document : Bytes
  pub signer : Bytes
  pub signature : HybridSignature

pub data RevokedSubject : Type 0 where
  release_manifest : Bytes → RevokedSubject
  compatibility_receipt : Bytes → RevokedSubject
  signer : Bytes → RevokedSubject

pub data RevocationReason : Type 0 where
  superseded : RevocationReason
  defect : RevocationReason
  evidence_invalid : RevocationReason
  license_withdrawn : RevocationReason
  key_compromised : RevocationReason

pub record Revocation : Type 0 where
  pub subject : RevokedSubject
  pub reason : RevocationReason
  pub revoked_at_unix_ms : ℕ

pub record RevocationList : Type 0 where
  pub issuer : Bytes
  pub sequence : ℕ
  pub issued_at_unix_ms : ℕ
  pub revoked : List Revocation
