-- ===== src/Release/Signing/Laws.antt =====
-- Whose signature the trusted principals accept
-- (crates/metralectl-control/src/release/signing.rs).
use metralectl.Prelude.{
  ℕ, zero, suc, ◌≡◌, refl, sym, ap, ◌∙◌, ◌↔◌, true, List, [], ◌∷◌, ◌++◌, map, map-append, subst,
  append_assoc, append-nil, Memᴰ, Option, none, some, String, arith, inl, inr,
}
use metralectl.Prelude.{
  Bytes, bytes_eq, bytes_eq_iff, bytes_eq_self, ok, bind-ok, Bool-cases, any, find,
}
use metralectl.Release.Documents.{SignedKind}
use metralectl.Release.Signing.{
  Crypto, kind_eq, domain, signed_string, RegistryPrincipal, ok_or, node_id, Trusted, admit,
  admit_all, new,
}

append-injective : (p xs ys : Bytes) → p ++ xs ≡ p ++ ys → xs ≡ ys
append-injective [] xs ys e = e
append-injective (x ∷ p) xs ys e = append-injective p xs ys (cc)

abbrev place : ℕ → Bytes → ℕ
place n [] = 0
place zero (x ∷ xs) = x
place (suc n) (x ∷ xs) = place n xs

-- The two domains differ at their seventh byte.
parted : ◌≡◌ {A = ℕ} b'l' b'v' → ⊥
parted e = omega arith

-- The string that is signed for one kind and document is signed for no other.
pub signed_string-injective :
    (kind kind' : SignedKind) (document document' : Bytes)
    → signed_string kind document ≡ signed_string kind' document'
    → (kind ≡ kind') × (document ≡ document')
unfolding signed_string
signed_string-injective SignedKind.release_manifest SignedKind.release_manifest d d' e =
    (refl, append-injective (domain SignedKind.release_manifest) d d' e)
signed_string-injective SignedKind.release_manifest SignedKind.revocation_list d d' e =
    absurd (parted (ap (place 6) e))
signed_string-injective SignedKind.revocation_list SignedKind.release_manifest d d' e =
    absurd (parted (sym (ap (place 6) e)))
signed_string-injective SignedKind.revocation_list SignedKind.revocation_list d d' e =
    (refl, append-injective (domain SignedKind.revocation_list) d d' e)

pub kind_eq_iff : (a b : SignedKind) → (kind_eq a b ≡ true) ↔ (a ≡ b)
kind_eq_iff SignedKind.release_manifest SignedKind.release_manifest = (λ h. refl, λ e. refl)
kind_eq_iff SignedKind.release_manifest SignedKind.revocation_list =
    (λ h. absurd (cc), λ e. absurd (cc))
kind_eq_iff SignedKind.revocation_list SignedKind.release_manifest =
    (λ h. absurd (cc), λ e. absurd (cc))
kind_eq_iff SignedKind.revocation_list SignedKind.revocation_list = (λ h. refl, λ e. refl)

ok_or_ok : {A : Type 0} (why : String) (o : Option A) {a : A} → ok_or why o ≡ ok a → o ≡ some a
ok_or_ok why none h = absurd (cc)
ok_or_ok why (some a) h = ground arith

Memᴰ-append : {A : Type 0} {a : A} (xs ys : List A) → Memᴰ a xs → Memᴰ a (xs ++ ys)
Memᴰ-append [] ys m = elim m [ ]
Memᴰ-append (x ∷ xs) ys (Memᴰ.head e) = Memᴰ.head e
Memᴰ-append (x ∷ xs) ys (Memᴰ.tail m) = Memᴰ.tail (Memᴰ-append xs ys m)

Memᴰ-last : {A : Type 0} {a : A} (xs : List A) → Memᴰ a (xs ++ a ∷ [])
Memᴰ-last [] = Memᴰ.head refl
Memᴰ-last (x ∷ xs) = Memᴰ.tail (Memᴰ-last xs)

-- No member twice.
abbrev pub Distinct : List Bytes → Type 0
Distinct [] = Unit
Distinct (x ∷ xs) = (¬ Memᴰ x xs) × Distinct xs

-- Nor one of those seen before.
abbrev Apart : List Bytes → List Bytes → Type 0
Apart seen ids = ((i : Bytes) → Memᴰ i ids → ¬ Memᴰ i seen) × Distinct ids

Apart-cons :
    (seen : List Bytes) (x : Bytes) (ids : List Bytes)
    → ¬ Memᴰ x seen
    → Apart (seen ++ x ∷ []) ids
    → Apart seen (x ∷ ids)
Apart-cons seen x ids fresh (new_to, distinct) =
    (either, (λ m. new_to x m (Memᴰ-last seen), distinct))
  where
    either : (i : Bytes) → Memᴰ i (x ∷ ids) → ¬ Memᴰ i seen
    either i (Memᴰ.head e) = rw e fresh
    either i (Memᴰ.tail m) = λ old. new_to i m (Memᴰ-append seen (x ∷ []) old)

module _ (c : Crypto) where
  -- The principal, with its keys decoded, and with the identity that they derive.
  pub record Trusts (p : RegistryPrincipal) (t : Trusted c) : Type 0 where
    pub id : t.id ≡ p.node_id
    pub derived : node_id c p.signing ≡ p.node_id
    pub ed_decoded : c.ed_key p.signing.ed25519 ≡ ok t.ed25519
    pub ml_decoded : c.ml_key p.signing.ml_dsa_65 ≡ some t.ml_dsa_65

  abbrev pub ids : List (Trusted c) → List Bytes
  ids ts = map (λ (t : Trusted c). t.id) ts

  any-mem :
      (x : Bytes) (ts : List (Trusted c))
      → Memᴰ x (ids ts)
      → any (λ (t : Trusted c). bytes_eq t.id x) ts ≡ true
  any-mem x [] m = elim m [ ]
  any-mem x (t ∷ ts) (Memᴰ.head e) = rw (e, bytes_eq_self t.id) refl
  any-mem x (t ∷ ts) (Memᴰ.tail m) = ground (arith, any-mem x ts m)

  admit-ok :
      (trusted : List (Trusted c)) (p : RegistryPrincipal) (t : Trusted c)
      → admit c trusted p ≡ ok t
      → Trusts p t × (¬ Memᴰ t.id (ids trusted))
  unfolding admit
  admit-ok trusted p t h = (
    ground (arith, bytes_eq_iff (node_id c p.signing) p.node_id),
    λ m. let listed = any-mem t.id trusted m in ground arith,
  )

  abbrev pub Each : List RegistryPrincipal → List (Trusted c) → Type 0
  Each [] [] = Unit
  Each [] (t ∷ ts) = ⊥
  Each (p ∷ ps) [] = ⊥
  Each (p ∷ ps) (t ∷ ts) = Trusts p t × Each ps ts

  -- The list that a loop from `trusted` ends in.
  record Extends (trusted : List (Trusted c)) (ps : List RegistryPrincipal) (ts : List (Trusted c))
      : Type 0 where
    rest : List (Trusted c)
    joined : ts ≡ trusted ++ rest
    each : Each ps rest
    apart : Apart (ids trusted) (ids rest)

  ids-last :
      (trusted : List (Trusted c)) (t : Trusted c)
      → ids (trusted ++ t ∷ []) ≡ ids trusted ++ t.id ∷ []
  ids-last trusted t = map-append (λ (t : Trusted c). t.id) trusted (t ∷ [])

  admit_all-ok :
      (trusted : List (Trusted c)) (ps : List RegistryPrincipal) (ts : List (Trusted c))
      → admit_all c trusted ps ≡ ok ts
      → Extends trusted ps ts
  unfolding admit_all
  admit_all-ok trusted [] ts h = record {
    rest = [];
    joined = ground (arith, append-nil trusted);
    each = tt;
    apart = (λ i m. elim m [ ], tt);
  }
  admit_all-ok trusted (p ∷ ps) ts h =
      let (t, admitted, h1) =
        bind-ok (admit c trusted p) (λ t. admit_all c (trusted ++ t ∷ []) ps) h in
      let (trusts, fresh) = admit-ok trusted p t admitted in
      let e = admit_all-ok (trusted ++ t ∷ []) ps ts h1 in
      record {
        rest = t ∷ e.rest;
        joined = e.joined ∙ append_assoc trusted (t ∷ []) e.rest;
        each = (trusts, e.each);
        apart =
            Apart-cons (ids trusted) t.id (ids e.rest) fresh (rw (← ids-last trusted t) e.apart);
      }

  pub new-ok :
      (ps : List RegistryPrincipal) (ts : List (Trusted c))
      → new c ps ≡ ok ts
      → Each ps ts × Distinct (ids ts)
  unfolding new
  new-ok [] ts h = absurd (cc)
  new-ok (p ∷ ps) ts h = let e = admit_all-ok [] (p ∷ ps) ts h in rw e.joined (e.each, e.apart.1)

  -- The principal behind a trusted entry, and the entry that is found for a principal.
  pub behind :
      (ps : List RegistryPrincipal) (ts : List (Trusted c)) {t : Trusted c}
      → Each ps ts
      → Memᴰ t ts
      → (p : RegistryPrincipal) × Memᴰ p ps × Trusts p t
  behind [] [] e m = elim m [ ]
  behind [] (t' ∷ ts) e m = absurd e
  behind (p ∷ ps) [] e m = absurd e
  behind (p ∷ ps) (t' ∷ ts) (now, e) (Memᴰ.head same) =
      (p, Memᴰ.head refl, subst (Trusts p) (sym same) now)
  behind (p ∷ ps) (t' ∷ ts) (now, e) (Memᴰ.tail m) =
      let (q, n, trusts) = behind ps ts e m in (q, Memᴰ.tail n, trusts)

  pub found :
      (ps : List RegistryPrincipal) (ts : List (Trusted c)) {p : RegistryPrincipal}
      → Each ps ts
      → Distinct (ids ts)
      → Memᴰ p ps
      → (t : Trusted c) × Trusts p t
        × (find (λ (t : Trusted c). bytes_eq t.id p.node_id) ts ≡ some t)
        × Memᴰ p.node_id (ids ts)
  found [] [] e d m = elim m [ ]
  found [] (t' ∷ ts) e d m = absurd e
  found (q ∷ ps) [] e d m = absurd e
  found (q ∷ ps) (t' ∷ ts) {p} (now, e) (fresh, d) (Memᴰ.head same) =
      let own : Trusts p t' = subst (λ x. Trusts x t') (sym same) now in
      (t', own, rw ((bytes_eq_iff t'.id p.node_id).1 own.id) refl, Memᴰ.head (sym own.id))
  found (q ∷ ps) (t' ∷ ts) {p} (now, e) (fresh, d) (Memᴰ.tail m) =
      let (t, trusts, at, listed) = found ps ts {p = p} e d m in
      (
        t,
        trusts,
        elim (Bool-cases (bytes_eq t'.id p.node_id)) [
          | inl same ↦ absurd (fresh (rw ((bytes_eq_iff t'.id p.node_id).0 same) listed))
          | inr other ↦ rw other at
        ],
        Memᴰ.tail listed,
      )
