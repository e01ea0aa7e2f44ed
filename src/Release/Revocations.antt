-- ===== src/Release/Revocations.antt =====
-- A revocation list, accepted only as its own signature allows
-- (crates/metralectl-control/src/release/revocations.rs).
pub mod Laws
use metralectl.Prelude.{ℕ, ◌-◌, Bool, not, List, [], ◌∷◌, Option, none, some, String, ltb, leb}
use metralectl.Prelude.{Bytes, bytes_eq, has, Result, ok, map_err, require, ◌>>=◌, ◌>>◌, false}
use metralectl.Release.Documents.{
  SignedKind, DocumentSignature, RevokedSubject, Revocation, RevocationList,
}
use metralectl.Release.Gate.{Digests, SignatureVerifier, Revoked}

pub record ListPolicy : Type 0 where
  pub max_age_ms : ℕ
  pub held_sequence : Option ℕ
  pub now_unix_ms : ℕ

pub data ListRefused : Type 0 where
  unsigned : String → ListRefused
  signed_by_a_revoked_signer : Bytes → ListRefused
  rollback : (held got : ℕ) → ListRefused
  stale : (age_ms max_age_ms : ℕ) → ListRefused

pub record Accepted : Type 0 where
  pub revoked : Revoked
  pub sequence : ℕ

abbrev pub none_revoked : Revoked
none_revoked = record { manifests = []; receipts = []; signers = [] }

-- One insertion of the loop.
unfoldable pub insert_revoked : RevokedSubject → Revoked → Revoked
insert_revoked (RevokedSubject.release_manifest d) r = record r { manifests = d ∷ r.manifests }
insert_revoked (RevokedSubject.compatibility_receipt d) r = record r { receipts = d ∷ r.receipts }
insert_revoked (RevokedSubject.signer s) r = record r { signers = s ∷ r.signers }

unfoldable pub revoked_of : Revoked → List Revocation → Revoked
unfolding insert_revoked
revoked_of r [] = r
revoked_of r (x ∷ xs) = revoked_of (insert_revoked x.subject r) xs

-- A sequence below the one that is held.
abbrev pub is_rollback : Option ℕ → ℕ → Bool
is_rollback none sequence = false
is_rollback (some held) sequence = ltb sequence held

abbrev pub or_zero : Option ℕ → ℕ
or_zero none = 0
or_zero (some n) = n

-- Accept `list`, signed by `signature`, under `policy`.
unfoldable pub accept :
    Digests
    → SignatureVerifier
    → RevocationList
    → DocumentSignature
    → ListPolicy
    → Result ListRefused Accepted
unfolding revoked_of
accept digests verifier list signature policy = do
  document ← map_err ListRefused.unsigned (digests.list list)
  signer ← map_err ListRefused.unsigned (verifier SignedKind.revocation_list document signature)
  let revoked = revoked_of none_revoked list.revoked
  require (not (has bytes_eq revoked.signers signer))
      (ListRefused.signed_by_a_revoked_signer signer)
  require (not (is_rollback policy.held_sequence list.sequence))
      (ListRefused.rollback (or_zero policy.held_sequence) list.sequence)
  let age_ms = policy.now_unix_ms - list.issued_at_unix_ms
  require (leb age_ms policy.max_age_ms) (ListRefused.stale age_ms policy.max_age_ms)
  ok (record { revoked = revoked; sequence = list.sequence })
