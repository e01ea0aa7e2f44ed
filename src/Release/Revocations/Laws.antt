-- ===== src/Release/Revocations/Laws.antt =====
-- What a host that accepted a revocation list knows, and that nothing it withdraws is verified
-- (crates/metralectl-control/src/release/revocations.rs, crates/metralectl-control/src/release.rs).
use metralectl.Prelude.{
  ℕ, ◌-◌, ◌≤◌, ◌≡◌, ◌⊎◌, refl, ap, map, ◌↔◌, true, not, List, [], ◌∷◌, Memᴰ, Option, none, some,
  arith, inl, inr,
}
use metralectl.Prelude.{Bytes, ok, map_err, map_err-ok, bind-ok, require-bind, leb→le, le→leb}
use metralectl.Release.Documents.{
  SignedKind, DocumentSignature, RevokedSubject, Revocation, RevocationList, ReleaseManifest,
  ModelRecipe,
}
use metralectl.Release.Gate.{
  Digests, SignatureVerifier, Revoked, ThisMachine, VerifiedRelease, verify,
}
use metralectl.Release.Gate.Laws.{verify_iff, not-has_iff}
use metralectl.Release.Revocations.{
  ListPolicy, ListRefused, Accepted, none_revoked, insert_revoked, revoked_of, is_rollback, accept,
}

-- What the list says of a subject.
abbrev pub Lists : RevocationList → RevokedSubject → Type 0
Lists list subject = Memᴰ subject (map (λ (r : Revocation). r.subject) list.revoked)

-- Whether the set withdraws a subject.
abbrev pub Withdraws : Revoked → RevokedSubject → Type 0
Withdraws r (RevokedSubject.release_manifest d) = Memᴰ d r.manifests
Withdraws r (RevokedSubject.compatibility_receipt d) = Memᴰ d r.receipts
Withdraws r (RevokedSubject.signer s) = Memᴰ s r.signers

insert-Withdraws_old :
    (x y : RevokedSubject) (r : Revoked) → Withdraws r y → Withdraws (insert_revoked x r) y
unfolding insert_revoked
insert-Withdraws_old (RevokedSubject.release_manifest d) (RevokedSubject.release_manifest e) r m =
    Memᴰ.tail m
insert-Withdraws_old (RevokedSubject.compatibility_receipt d)
      (RevokedSubject.compatibility_receipt e) r m =
    Memᴰ.tail m
insert-Withdraws_old (RevokedSubject.signer d) (RevokedSubject.signer e) r m = Memᴰ.tail m
insert-Withdraws_old _ _ r m = m

insert-Withdraws_self : (x : RevokedSubject) (r : Revoked) → Withdraws (insert_revoked x r) x
unfolding insert_revoked
insert-Withdraws_self (RevokedSubject.release_manifest d) r = Memᴰ.head refl
insert-Withdraws_self (RevokedSubject.compatibility_receipt d) r = Memᴰ.head refl
insert-Withdraws_self (RevokedSubject.signer d) r = Memᴰ.head refl

-- The other way: what is withdrawn after an insertion was, or is what was inserted.
headed :
    {A : Type 0} (f : A → RevokedSubject) {a b : A} {xs : List A} {P : Type 0}
    → (Memᴰ b xs → P)
    → Memᴰ b (a ∷ xs)
    → P ⊎ (f b ≡ f a)
headed f k (Memᴰ.head e) = inr (ap f e)
headed f k (Memᴰ.tail m) = inl (k m)

insert-Withdraws :
    (x y : RevokedSubject) (r : Revoked)
    → Withdraws (insert_revoked x r) y
    → Withdraws r y ⊎ (y ≡ x)
unfolding insert_revoked
insert-Withdraws (RevokedSubject.release_manifest d) (RevokedSubject.release_manifest e) r m =
    headed RevokedSubject.release_manifest (λ k. k) m
insert-Withdraws (RevokedSubject.compatibility_receipt d) (RevokedSubject.compatibility_receipt e) r
      m =
    headed RevokedSubject.compatibility_receipt (λ k. k) m
insert-Withdraws (RevokedSubject.signer d) (RevokedSubject.signer e) r m =
    headed RevokedSubject.signer (λ k. k) m
insert-Withdraws _ _ r m = inl m

revoked_of-old :
    (xs : List Revocation) (y : RevokedSubject) (r : Revoked)
    → Withdraws r y
    → Withdraws (revoked_of r xs) y
unfolding revoked_of
revoked_of-old [] y r m = m
revoked_of-old (x ∷ xs) y r m =
    revoked_of-old xs y (insert_revoked x.subject r) (insert-Withdraws_old x.subject y r m)

revoked_of-new :
    (xs : List Revocation) (y : RevokedSubject) (r : Revoked)
    → Memᴰ y (map (λ (x : Revocation). x.subject) xs)
    → Withdraws (revoked_of r xs) y
unfolding revoked_of
revoked_of-new [] y r m = elim m [ ]
revoked_of-new (x ∷ xs) y r (Memᴰ.head e) =
    revoked_of-old xs y (insert_revoked x.subject r) (rw e (insert-Withdraws_self x.subject r))
revoked_of-new (x ∷ xs) y r (Memᴰ.tail m) = revoked_of-new xs y (insert_revoked x.subject r) m

revoked_of-inverse :
    (xs : List Revocation) (y : RevokedSubject) (r : Revoked)
    → Withdraws (revoked_of r xs) y
    → Withdraws r y ⊎ Memᴰ y (map (λ (x : Revocation). x.subject) xs)
unfolding revoked_of
revoked_of-inverse [] y r m = inl m
revoked_of-inverse (x ∷ xs) y r m = elim (revoked_of-inverse xs y (insert_revoked x.subject r) m) [
  | inr later ↦ inr (Memᴰ.tail later)
  | inl w ↦ elim (insert-Withdraws x.subject y r w) [
    | inl old ↦ inl old
    | inr same ↦ inr (Memᴰ.head same)
  ]
]

none-Withdraws : (y : RevokedSubject) → ¬ Withdraws none_revoked y
none-Withdraws (RevokedSubject.release_manifest d) m = elim m [ ]
none-Withdraws (RevokedSubject.compatibility_receipt d) m = elim m [ ]
none-Withdraws (RevokedSubject.signer d) m = elim m [ ]

-- The loop withdraws exactly what the list names.
revoked_of_iff :
    (list : RevocationList) (y : RevokedSubject)
    → Withdraws (revoked_of none_revoked list.revoked) y ↔ Lists list y
revoked_of_iff list y = (
  λ w. elim (revoked_of-inverse list.revoked y none_revoked w) [
    | inl before ↦ absurd (none-Withdraws y before)
    | inr named ↦ named
  ],
  λ m. revoked_of-new list.revoked y none_revoked m,
)

-- A sequence that is not below the one held.
abbrev pub Follows : Option ℕ → ℕ → Type 0
Follows held sequence = (h : ℕ) → held ≡ some h → h ≤ sequence

not-rollback_iff :
    (held : Option ℕ) (sequence : ℕ)
    → (not (is_rollback held sequence) ≡ true) ↔ Follows held sequence
not-rollback_iff none sequence = (λ h k e. absurd (cc), λ f. refl)
not-rollback_iff (some held) sequence = (λ h k e. ground arith, λ f. ground (arith, f held refl))

module _ (digests : Digests) (verifier : SignatureVerifier) (list : RevocationList)
    (signature : DocumentSignature) (policy : ListPolicy) where
  -- What a list must be to be accepted.
  pub record Acceptable : Type 0 where
    pub document : Bytes
    pub signer : Bytes
    pub is_named : digests.list list ≡ ok document
    pub signed : verifier SignedKind.revocation_list document signature ≡ ok signer
    pub signer_stands : ¬ Lists list (RevokedSubject.signer signer)
    pub follows : Follows policy.held_sequence list.sequence
    pub fresh : policy.now_unix_ms - list.issued_at_unix_ms ≤ policy.max_age_ms

  -- Acceptance, with what the host then holds.
  pub record Accepts : Type 0 where
    pub accepted : Accepted
    pub is_accepted : accept digests verifier list signature policy ≡ ok accepted
    pub held : accepted.sequence ≡ list.sequence
    pub withdraws : (y : RevokedSubject) → Withdraws accepted.revoked y ↔ Lists list y

  pub accept-ok :
      (a : Accepted)
      → accept digests verifier list signature policy ≡ ok a
      → Acceptable
        × (a.sequence ≡ list.sequence)
        × (a.revoked ≡ revoked_of none_revoked list.revoked)
  unfolding accept
  accept-ok a h =
      let (document, made, h1) = bind-ok (map_err ListRefused.unsigned (digests.list list)) _ h in
      let (signer, signed, h2) =
        bind-ok
          (map_err ListRefused.unsigned (verifier SignedKind.revocation_list document signature)) _
          h1 in
      let (stands, h3) = require-bind _ _ _ h2 in
      let (follows, h4) = require-bind _ _ _ h3 in
      let (fresh, h5) = require-bind _ _ _ h4 in
      (
        record {
          document = document;
          signer = signer;
          is_named = map_err-ok _ _ made;
          signed = map_err-ok _ _ signed;
          signer_stands = λ m.
              (not-has_iff _ _).0 stands ((revoked_of_iff list (RevokedSubject.signer signer)).1 m);
          follows = (not-rollback_iff _ _).0 follows;
          fresh = leb→le _ _ fresh;
        },
        ground arith,
        ground arith,
      )

  accept-passes :
      Acceptable
      → accept digests verifier list signature policy
        ≡ ok (record { revoked = revoked_of none_revoked list.revoked; sequence = list.sequence })
  unfolding accept
  accept-passes q =
      rw
        (
          q.is_named,
          q.signed,
          (not-has_iff _ _).1
              (λ m. q.signer_stands ((revoked_of_iff list (RevokedSubject.signer q.signer)).0 m)),
          (not-rollback_iff _ _).1 q.follows,
          le→leb _ _ q.fresh,
        )
        refl

  -- A list is accepted just when a trusted signer that it does not withdraw signed its digest as a
  -- revocation list, its sequence is not below the one held, and it is not older than the most
  -- allowed; the host then holds its sequence and withdraws exactly the subjects that it names.
  pub accept_iff : Accepts ↔ Acceptable
  accept_iff = (
    λ a. (accept-ok a.accepted a.is_accepted).0,
    λ q. record {
      accepted = record {
        revoked = revoked_of none_revoked list.revoked;
        sequence = list.sequence;
      };
      is_accepted = accept-passes q;
      held = refl;
      withdraws = revoked_of_iff list;
    },
  )

  -- Under a list that the host accepted, a release that verifies is not named by it, its signer is
  -- not, and a receipt that its manifest cites is not.
  pub verify-accept :
      (manifest : ReleaseManifest) (shipped : ModelRecipe) (expected : Bytes)
      (by : DocumentSignature) (here : ThisMachine) (a : Accepted) (release : VerifiedRelease)
      → accept digests verifier list signature policy ≡ ok a
      → verify digests manifest shipped expected by verifier a.revoked here ≡ ok release
      → (¬ Lists list (RevokedSubject.release_manifest expected))
        × (¬ Lists list (RevokedSubject.signer release.signer))
        × ((r : Bytes) × Memᴰ r manifest.receipts
            × (¬ Lists list (RevokedSubject.compatibility_receipt r)))
  verify-accept manifest shipped expected by here a release h k =
      let (_, _, same) = accept-ok a h in
      let q =
        (verify_iff digests manifest shipped expected by verifier a.revoked here release).0 k in
      let (r, cited, stands) = q.receipt_stands in
      (
        λ m.
            q.stands
              (rw same ((revoked_of_iff list (RevokedSubject.release_manifest expected)).1 m)),
        λ m.
            q.signer_stands
              (rw same ((revoked_of_iff list (RevokedSubject.signer release.signer)).1 m)),
        (
          r,
          cited,
          λ m.
              stands (rw same ((revoked_of_iff list (RevokedSubject.compatibility_receipt r)).1 m)),
        ),
      )
