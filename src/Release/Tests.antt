-- ===== src/Release/Tests.antt =====
-- Inputs for the laws of release verification: a scheme and digests that run, one release, one
-- registry principal and one revocation list.
use metralectl.Prelude.{◌≡◌, ◌↔◌, refl, [], ◌∷◌, ◌++◌, Memᴰ, some, codes, Bytes, bytes_eq, ok}
use metralectl.Hardware.{gb10, classify}
use metralectl.Release.Documents.{
  ArtifactRef, OciImage, ModelRevision, ReleaseManifest, SbomFormat, ModelRecipe, StoragePrecision,
  Precision, Engine, Capability, Modality, SignedKind, DocumentSignature, RevokedSubject,
  RevocationReason, RevocationList,
}
use metralectl.Release.Gate.{Digests, ThisMachine, VerifiedRelease, SignatureVerifier, verify}
use metralectl.Release.Gate.Laws.{Qualifies, verify_iff}
use metralectl.Release.Signing.{Crypto, RegistryPrincipal, Trusted, new, verify_signature}
use metralectl.Release.Signing.Laws.{signed_string-injective}
use metralectl.Release.Signing.Verified.{Signs, verify_signature-new}
use metralectl.Release.Revocations.{ListPolicy, Accepted, accept}
use metralectl.Release.Revocations.Laws.{Lists, Accepts, Acceptable, accept_iff, verify-accept}

-- A signature is the key before the message.
abbrev toy : Crypto
toy = record {
  EdKey = Bytes;
  MlKey = Bytes;
  MlSignature = Bytes;
  sha3_256 = λ bytes. bytes;
  ed_key = λ key. ok key;
  ml_key = λ key. some key;
  verify_strict = λ key message signature. bytes_eq signature (key ++ message);
  ml_signature = λ half. some half;
  verify_with_context = λ key message context half. bytes_eq half (key ++ message);
}

abbrev registry : RegistryPrincipal
registry = record {
  node_id = codes "mfs/node-id/v1" ++ (1 ∷ []) ++ (2 ∷ []);
  signing = record { ed25519 = 1 ∷ []; ml_dsa_65 = 2 ∷ [] };
}

abbrev anchor : Trusted toy
anchor = record { id = registry.node_id; ed25519 = 1 ∷ []; ml_dsa_65 = 2 ∷ [] }

abbrev release_digest : Bytes
release_digest = 7 ∷ 7 ∷ []

-- The registry's signature of a document of a kind.
abbrev signature_of : SignedKind → Bytes → Bytes → DocumentSignature
signature_of kind document message = record {
  kind = kind;
  document = document;
  signer = registry.node_id;
  signature = record { ed25519 = 1 ∷ message; ml_dsa_65 = 2 ∷ message };
}

abbrev release_signature : DocumentSignature
release_signature =
    signature_of SignedKind.release_manifest release_digest
      (codes "mfs/release-manifest/v1" ++ release_digest)

signs_release :
    verify_signature toy (anchor ∷ []) SignedKind.release_manifest release_digest release_signature
    ≡ ok registry.node_id
unfolding verify_signature
signs_release = refl

admits : new toy (registry ∷ []) ≡ ok (anchor ∷ [])
unfolding new
admits = refl

verify_signature-new_example :
    (verify_signature toy (anchor ∷ []) SignedKind.release_manifest release_digest release_signature
      ≡ ok registry.node_id)
    ↔ ((p : RegistryPrincipal) × Memᴰ p (registry ∷ [])
        × (p.node_id ≡ registry.node_id)
        × Signs toy p SignedKind.release_manifest release_digest release_signature)
verify_signature-new_example =
    verify_signature-new toy (registry ∷ []) (anchor ∷ []) SignedKind.release_manifest
      release_digest release_signature registry.node_id admits

signed_string-injective_example :
    (SignedKind.release_manifest ≡ SignedKind.release_manifest) × (release_digest ≡ release_digest)
signed_string-injective_example =
    signed_string-injective SignedKind.release_manifest SignedKind.release_manifest release_digest
      release_digest refl

abbrev artifact : ArtifactRef
artifact = record { uri = "file:a"; sha256 = 9 ∷ [] }

abbrev served : ModelRevision
served = record { repository = "openai/gpt-oss-20b"; revision = 3 ∷ [] }

abbrev pinned : OciImage
pinned = record { repository = "metrale/x"; digest = "sha256:aa" }

abbrev manifest : ReleaseManifest
manifest = record {
  release = "spring";
  created_at_unix_ms = 1;
  runtime = record { git_commit = 4 ∷ []; image = pinned };
  recipe = 5 ∷ [];
  model = record { source = served; weights = 6 ∷ [] };
  hardware = record { hardware_class = gb10; fingerprints = (8 ∷ []) ∷ [] };
  sbom = record { format = SbomFormat.spdx_json; artifact = artifact };
  receipts = (10 ∷ []) ∷ (11 ∷ []) ∷ [];
}

abbrev shipped : ModelRecipe
shipped = record {
  recipe_id = "gpt-oss/20b";
  model = record { source = served; weights = [] };
  architecture = record { family = "gpt-oss"; tokenizer = artifact; chat_template = artifact };
  quantization = record {
    weights = StoragePrecision.mxfp4;
    activations = Precision.bf16;
    kv_cache = StoragePrecision.fp8;
  };
  limits = record {
    max_context_tokens = 4096;
    max_concurrent_sequences = 4;
    gpu_memory_permille = 880;
  };
  runtime = record {
    engine = Engine.metrale;
    image = pinned;
    hardware_classes = gb10 ∷ [];
    min_nodes = 1;
    serve_flags = [];
    env = [];
  };
  semantics = record {
    tool_calls = Capability.supported "harmony";
    structured_output = Capability.unsupported;
    reasoning = Capability.unsupported;
    input_modalities = Modality.text ∷ [];
    output_modalities = Modality.text ∷ [];
  };
  evidence = [];
}

abbrev list_digest : Bytes
list_digest = 12 ∷ []

abbrev digests : Digests
digests = record {
  manifest = λ m. ok release_digest;
  recipe = λ r. ok (5 ∷ []);
  weights = λ w. ok (6 ∷ []);
  list = λ l. ok list_digest;
}

abbrev here : ThisMachine
here = record {
  accelerator = "NVIDIA GB10";
  fingerprint = some (8 ∷ []);
  recipe_model = "openai/gpt-oss-20b";
}

abbrev verified : VerifiedRelease
verified = record {
  digest = release_digest;
  image = pinned;
  model = "openai/gpt-oss-20b";
  signer = registry.node_id;
}

abbrev verifier : SignatureVerifier
verifier = verify_signature toy (anchor ∷ [])

abbrev withdrawn : RevocationList
withdrawn = record {
  issuer = 13 ∷ [];
  sequence = 4;
  issued_at_unix_ms = 1000;
  revoked =
      record {
        subject = RevokedSubject.compatibility_receipt (10 ∷ []);
        reason = RevocationReason.evidence_invalid;
        revoked_at_unix_ms = 900;
      }
      ∷ [];
}

abbrev list_signature : DocumentSignature
list_signature =
    signature_of SignedKind.revocation_list list_digest
      (codes "mfs/revocation-list/v1" ++ list_digest)

abbrev policy : ListPolicy
policy = record { max_age_ms = 60000; held_sequence = some 3; now_unix_ms = 2000 }

abbrev held : Accepted
held = record {
  revoked = record { manifests = []; receipts = (10 ∷ []) ∷ []; signers = [] };
  sequence = 4;
}

accepts_list : accept digests verifier withdrawn list_signature policy ≡ ok held
unfolding accept verify_signature
accepts_list = refl

verifies_release :
    verify digests manifest shipped release_digest release_signature verifier held.revoked here
    ≡ ok verified
unfolding verify verify_signature classify
verifies_release = refl

verify_iff_example :
    (verify digests manifest shipped release_digest release_signature verifier held.revoked here
      ≡ ok verified)
    ↔ Qualifies digests manifest shipped release_digest release_signature verifier held.revoked here
        verified
verify_iff_example =
    verify_iff digests manifest shipped release_digest release_signature verifier held.revoked here
      verified

accept_iff_example :
    Accepts digests verifier withdrawn list_signature policy
    ↔ Acceptable digests verifier withdrawn list_signature policy
accept_iff_example = accept_iff digests verifier withdrawn list_signature policy

verify-accept_example :
    (¬ Lists withdrawn (RevokedSubject.release_manifest release_digest))
    × (¬ Lists withdrawn (RevokedSubject.signer registry.node_id))
    × ((r : Bytes) × Memᴰ r manifest.receipts
        × (¬ Lists withdrawn (RevokedSubject.compatibility_receipt r)))
verify-accept_example =
    verify-accept digests verifier withdrawn list_signature policy manifest shipped release_digest
      release_signature here held verified accepts_list verifies_release
