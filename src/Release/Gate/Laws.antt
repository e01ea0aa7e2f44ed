-- ===== src/Release/Gate/Laws.antt =====
-- What a verified release stands for (crates/metralectl-control/src/release.rs).
use metralectl.Prelude.{
  ◌≡◌, ◌↔◌, refl, ap, true, not, List, Memᴰ, Option, none, some, String, arith,
}
use metralectl.Prelude.{
  str_eq, eq_iff, all, Bytes, bytes_eq, bytes_eq_iff, bytes_eq_self, has, has-mem, mem-has,
  has-false, all-false, mem-all, Result, ok, err, map_err,
}
use metralectl.Prelude.{bind-ok, require-bind, require-ok, map_err-ok}
use metralectl.Hardware.{HardwareClass, classify}
use metralectl.Release.Documents.{
  OciImage, image_eq, ModelRevision, revision_eq, ReleaseManifest, ModelRecipe, SignedKind,
  DocumentSignature,
}
use metralectl.Release.Gate.{
  Digests, SignatureVerifier, Revoked, ThisMachine, Unverified, VerifiedRelease, is_digest,
  is_class, is_covered, bound, matched, verify,
}

str_eq_iff : (a b : String) → (str_eq a b ≡ true) ↔ (a ≡ b)
str_eq_iff a b = eq_iff a b

image_eq_iff : (a b : OciImage) → (image_eq a b ≡ true) ↔ (a ≡ b)
image_eq_iff a b = (
  λ h. ground (arith, eq_iff a.repository b.repository, eq_iff a.digest b.digest),
  λ e. ground (arith, eq_iff a.repository b.repository, eq_iff a.digest b.digest),
)

revision_eq_iff : (a b : ModelRevision) → (revision_eq a b ≡ true) ↔ (a ≡ b)
revision_eq_iff a b = (
  λ h. ground (arith, eq_iff a.repository b.repository, bytes_eq_iff a.revision b.revision),
  λ e. ground (arith, eq_iff a.repository b.repository, bytes_eq_iff a.revision b.revision),
)

is_digest_iff : (r : Result String Bytes) (d : Bytes) → (is_digest r d ≡ true) ↔ (r ≡ ok d)
is_digest_iff (ok x) d =
    (λ h. ap ok ((bytes_eq_iff x d).0 h), λ e. ground (arith, bytes_eq_iff x d))
is_digest_iff (err why) d = (λ h. absurd (cc), λ e. absurd (cc))

is_class_iff :
    (o : Option HardwareClass) (class : HardwareClass)
    → (is_class o class ≡ true) ↔ (o ≡ some class)
is_class_iff none class = (λ h. absurd (cc), λ e. absurd (cc))
is_class_iff (some here) class =
    (λ h. ap some ((eq_iff here class).0 h), λ e. ground (arith, eq_iff here class))

-- The machine's fingerprint, measured, is one that the release was qualified on.
abbrev pub Covers : Option Bytes → List Bytes → Type 0
Covers fingerprint fingerprints = (fp : Bytes) × (fingerprint ≡ some fp) × Memᴰ fp fingerprints

is_covered_iff : (o : Option Bytes) (fps : List Bytes) → (is_covered o fps ≡ true) ↔ Covers o fps
is_covered_iff none fps = (λ h. absurd (cc), λ (fp, e, m). absurd (cc))
is_covered_iff (some x) fps = (
  λ h. (x, refl, has-mem bytes_eq bytes_eq_iff fps x h),
  λ (fp, e, m).
      let same : x ≡ fp = ground arith in rw same (mem-has bytes_eq bytes_eq_iff fps fp m),
)

-- The shipped recipe is the one that the manifest binds, and says the same.
pub record Binds (digests : Digests) (manifest : ReleaseManifest) (shipped : ModelRecipe)
    : Type 0 where
  pub is_named : digests.recipe shipped ≡ ok manifest.recipe
  pub same_source : shipped.model.source ≡ manifest.model.source
  pub same_weights : digests.weights shipped.model.weights ≡ ok manifest.model.weights
  pub same_image : shipped.runtime.image ≡ manifest.runtime.image
  pub same_class : Memᴰ manifest.hardware.hardware_class shipped.runtime.hardware_classes

bound-ok :
    (digests : Digests) (manifest : ReleaseManifest) (shipped : ModelRecipe) {u : Unit {0}}
    → bound digests manifest shipped ≡ ok u
    → Binds digests manifest shipped
unfolding bound
bound-ok digests manifest shipped h =
    let (a, h1) = require-bind _ _ _ h in
    let (b, h2) = require-bind _ _ _ h1 in
    let (c, h3) = require-bind _ _ _ h2 in
    let (d, h4) = require-bind _ _ _ h3 in
    record {
      is_named = (is_digest_iff _ _).0 a;
      same_source = (revision_eq_iff _ _).0 b;
      same_weights = (is_digest_iff _ _).0 c;
      same_image = (image_eq_iff _ _).0 d;
      same_class = has-mem str_eq str_eq_iff _ _ (require-ok _ _ h4);
    }

bound-passes :
    (digests : Digests) (manifest : ReleaseManifest) (shipped : ModelRecipe)
    → Binds digests manifest shipped
    → bound digests manifest shipped ≡ ok tt
unfolding bound
bound-passes digests manifest shipped b =
    rw
      (
        (is_digest_iff _ _).1 b.is_named,
        (revision_eq_iff _ _).1 b.same_source,
        (is_digest_iff _ _).1 b.same_weights,
        (image_eq_iff _ _).1 b.same_image,
        mem-has str_eq str_eq_iff _ _ b.same_class,
      )
      refl

pub not-has_iff : (xs : List Bytes) (a : Bytes) → (not (has bytes_eq xs a) ≡ true) ↔ (¬ Memᴰ a xs)
not-has_iff xs a = (
  λ h. (has-false bytes_eq bytes_eq_iff xs a).0 (ground arith),
  λ h. rw ((has-false bytes_eq bytes_eq_iff xs a).1 h) refl,
)

-- A receipt that the release cites and that is not withdrawn.
abbrev pub Stands : List Bytes → List Bytes → Type 0
Stands withdrawn receipts = (r : Bytes) × Memᴰ r receipts × (¬ Memᴰ r withdrawn)

not-all_iff :
    (withdrawn receipts : List Bytes)
    → (not (all (has bytes_eq withdrawn) receipts) ≡ true) ↔ Stands withdrawn receipts
not-all_iff withdrawn receipts = (
  λ h.
      let (r, m, e) = all-false (has bytes_eq withdrawn) receipts (ground arith) in
      (r, m, (has-false bytes_eq bytes_eq_iff withdrawn r).0 e),
  λ (r, m, absent).
      let e = (has-false bytes_eq bytes_eq_iff withdrawn r).1 absent in
      rw (mem-all (has bytes_eq withdrawn) receipts r m e) refl,
)

-- This machine is one that the release was qualified for.
pub record Fits (manifest : ReleaseManifest) (here : ThisMachine) : Type 0 where
  pub class : classify here.accelerator ≡ some manifest.hardware.hardware_class
  pub covered : Covers here.fingerprint manifest.hardware.fingerprints
  pub same_model : manifest.model.source.repository ≡ here.recipe_model

matched-ok :
    (manifest : ReleaseManifest) (here : ThisMachine) {u : Unit {0}}
    → matched manifest here ≡ ok u
    → Fits manifest here
unfolding matched
matched-ok manifest here h =
    let (a, h1) = require-bind _ _ _ h in
    let (b, h2) = require-bind _ _ _ h1 in
    record {
      class = (is_class_iff _ _).0 a;
      covered = (is_covered_iff _ _).0 b;
      same_model = (eq_iff _ _).0 (require-ok _ _ h2);
    }

matched-passes :
    (manifest : ReleaseManifest) (here : ThisMachine)
    → Fits manifest here
    → matched manifest here ≡ ok tt
unfolding matched
matched-passes manifest here f =
    rw ((is_class_iff _ _).1 f.class, (is_covered_iff _ _).1 f.covered, (eq_iff _ _).1 f.same_model)
      refl

-- All that a verified release promises of its documents, of what is withdrawn and of this machine.
pub record Qualifies (digests : Digests) (manifest : ReleaseManifest) (shipped : ModelRecipe)
    (expected : Bytes) (signature : DocumentSignature) (verifier : SignatureVerifier)
    (revoked : Revoked) (here : ThisMachine) (release : VerifiedRelease) : Type 0 where
  pub is_named : digests.manifest manifest ≡ ok expected
  pub stands : ¬ Memᴰ expected revoked.manifests
  pub signed : verifier SignedKind.release_manifest expected signature ≡ ok release.signer
  pub signer_stands : ¬ Memᴰ release.signer revoked.signers
  pub receipt_stands : Stands revoked.receipts manifest.receipts
  pub binds : Binds digests manifest shipped
  pub fits : Fits manifest here
  pub same_digest : release.digest ≡ expected
  pub same_image : release.image ≡ manifest.runtime.image
  pub same_model : release.model ≡ manifest.model.source.repository

module _ (digests : Digests) (manifest : ReleaseManifest) (shipped : ModelRecipe) (expected : Bytes)
    (signature : DocumentSignature) (verifier : SignatureVerifier) (revoked : Revoked)
    (here : ThisMachine) (release : VerifiedRelease) where
  verify-ok :
      verify digests manifest shipped expected signature verifier revoked here ≡ ok release
      → Qualifies digests manifest shipped expected signature verifier revoked here release
  unfolding verify
  verify-ok h =
      let (actual, made, h1) =
        bind-ok (map_err Unverified.unsigned (digests.manifest manifest)) _ h in
      let (same, h2) = require-bind _ _ _ h1 in
      let (stands, h3) = require-bind _ _ _ h2 in
      let (signer, signed, h4) =
        bind-ok
          (map_err Unverified.unsigned (verifier SignedKind.release_manifest actual signature)) _
          h3 in
      let (trusted, h5) = require-bind _ _ _ h4 in
      let (receipts, h6) = require-bind _ _ _ h5 in
      let (_, binds, h7) = bind-ok (bound digests manifest shipped) _ h6 in
      let (_, fits, h8) = bind-ok (matched manifest here) _ h7 in
      let at : actual ≡ expected = (bytes_eq_iff _ _).0 same in
      let by : signer ≡ release.signer = ground arith in
      record {
        is_named = rw (← at) (map_err-ok _ _ made);
        stands = rw (← at) ((not-has_iff _ _).0 stands);
        signed = rw (← at, ← by) (map_err-ok _ _ signed);
        signer_stands = rw (← by) ((not-has_iff _ _).0 trusted);
        receipt_stands = (not-all_iff _ _).0 receipts;
        binds = bound-ok digests manifest shipped binds;
        fits = matched-ok manifest here fits;
        same_digest = rw (← at) (ground arith);
        same_image = ground arith;
        same_model = ground arith;
      }

  verify-passes :
      Qualifies digests manifest shipped expected signature verifier revoked here release
      → verify digests manifest shipped expected signature verifier revoked here ≡ ok release
  unfolding verify
  verify-passes q =
      rw
        (
          q.is_named,
          bytes_eq_self expected,
          (not-has_iff _ _).1 q.stands,
          q.signed,
          (not-has_iff _ _).1 q.signer_stands,
          (not-all_iff _ _).1 q.receipt_stands,
          bound-passes digests manifest shipped q.binds,
          matched-passes manifest here q.fits,
        )
        (ground (arith, q.same_digest, q.same_image, q.same_model))

  -- A manifest is verified as the release that the deployment names just when its digest is that
  -- name and not withdrawn, a signer not withdrawn signed that digest as a manifest, a receipt it
  -- cites still stands, the shipped recipe is the one it binds and agrees with it, and this
  -- machine's class, fingerprint and recipe's model are what it was qualified for; what is handed
  -- on is its digest, image, model and signer.
  pub verify_iff :
      (verify digests manifest shipped expected signature verifier revoked here ≡ ok release)
      ↔ Qualifies digests manifest shipped expected signature verifier revoked here release
  verify_iff = (verify-ok, verify-passes)
