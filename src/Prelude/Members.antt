-- ===== src/Prelude/Members.antt =====
-- What `find`, `filter` and `any` say of the members of a list.
use mathlib.Core.Path.{◌≡◌, refl, sym, subst}
use mathlib.Core.Logic.{inl, inr}
use mathlib.Core.Bool.{Bool, true, false}
use mathlib.Core.List.{List, [], ◌∷◌, ◌++◌, Memᴰ}
use mathlib.Core.Option.{none, some}
use native.Mathlib.Omega.{arith}
use metralectl.Prelude.Tests.{Bool-cases}
use metralectl.Prelude.Lists.{All, find, filter}

module _ {ℓ} {A : Type ℓ} where
  pub All-map {κ λ'} :
      {P : A → Type κ} {Q : A → Type λ'}
      → ((a : A) → P a → Q a)
      → (xs : List A) → All P xs
      → All Q xs
  All-map f [] h = tt
  All-map f (x ∷ xs) (p, h) = (f x p, All-map f xs h)

  pub All-mem {κ} : (P : A → Type κ) {a : A} (xs : List A) → All P xs → Memᴰ a xs → P a
  All-mem P [] h m = elim m [ ]
  All-mem P (x ∷ xs) (p, h) (Memᴰ.head e) = subst P (sym e) p
  All-mem P (x ∷ xs) (p, h) (Memᴰ.tail m) = All-mem P xs h m

  pub All-tabulate {κ} : (P : A → Type κ) (xs : List A) → ((a : A) → Memᴰ a xs → P a) → All P xs
  All-tabulate P [] f = tt
  All-tabulate P (x ∷ xs) f = (f x (Memᴰ.head refl), All-tabulate P xs (λ a m. f a (Memᴰ.tail m)))

module _ {ℓ} {A : Type ℓ} (p : A → Bool) where
  pub find-none : (xs : List A) → find p xs ≡ none → All (λ a. p a ≡ false) xs
  find-none [] e = tt
  find-none (x ∷ xs) e = ground (arith, find-none xs)

  pub find-none_of : (xs : List A) → All (λ a. p a ≡ false) xs → find p xs ≡ none
  find-none_of [] h = refl
  find-none_of (x ∷ xs) (e, h) = rw e (find-none_of xs h)

  pub find-some : (xs : List A) {a : A} → find p xs ≡ some a → Memᴰ a xs × (p a ≡ true)
  find-some [] e = cc
  find-some (x ∷ xs) {a} e = elim (Bool-cases (p x)) [
    | inl h ↦ let same : x ≡ a = ground arith in (Memᴰ.head (sym same), rw (← same) h)
    | inr h ↦ let (m, q) = find-some xs {a = a} (rw h at e) in (Memᴰ.tail m, q)
  ]

  pub mem-filter : (xs : List A) {a : A} → Memᴰ a (filter p xs) → Memᴰ a xs × (p a ≡ true)
  mem-filter [] m = elim m [ ]
  mem-filter (x ∷ xs) {a} m = elim (Bool-cases (p x)) [
    | inl h ↦ kept (mem-filter xs) h (rw h at m)
    | inr h ↦ let (m', q) = mem-filter xs {a = a} (rw h at m) in (Memᴰ.tail m', q)
  ]
    where
      kept :
          (Memᴰ a (filter p xs) → Memᴰ a xs × (p a ≡ true))
          → p x ≡ true
          → Memᴰ a (x ∷ filter p xs)
          → Memᴰ a (x ∷ xs) × (p a ≡ true)
      kept ih h (Memᴰ.head e) = (Memᴰ.head e, rw e h)
      kept ih h (Memᴰ.tail m') = let (m, q) = ih m' in (Memᴰ.tail m, q)

  pub mem-filter_of : (xs : List A) {a : A} → Memᴰ a xs → p a ≡ true → Memᴰ a (filter p xs)
  mem-filter_of [] m h = elim m [ ]
  mem-filter_of (x ∷ xs) (Memᴰ.head e) h = rw (rw e at h) (Memᴰ.head e)
  mem-filter_of (x ∷ xs) (Memᴰ.tail m) h = elim (Bool-cases (p x)) [
    | inl k ↦ rw k (Memᴰ.tail (mem-filter_of xs m h))
    | inr k ↦ rw k (mem-filter_of xs m h)
  ]

  -- An empty filter leaves out every member.
  pub filter-nil : (xs : List A) → filter p xs ≡ [] → All (λ a. p a ≡ false) xs
  filter-nil [] e = tt
  filter-nil (x ∷ xs) e = ground (arith, filter-nil xs)

  pub filter-nil_of : (xs : List A) → All (λ a. p a ≡ false) xs → filter p xs ≡ []
  filter-nil_of [] h = refl
  filter-nil_of (x ∷ xs) (e, h) = rw e (filter-nil_of xs h)

  pub filter-eq_self : (xs : List A) → All (λ a. p a ≡ true) xs → filter p xs ≡ xs
  filter-eq_self [] h = refl
  filter-eq_self (x ∷ xs) (e, h) = rw (e, filter-eq_self xs h)

  -- A filter that keeps all that another is after changes nothing for that other.
  pub filter-filter :
      (q : A → Bool) (xs : List A)
      → ((a : A) → Memᴰ a xs → p a ≡ true → q a ≡ true)
      → filter p (filter q xs) ≡ filter p xs
  filter-filter q [] h = refl
  filter-filter q (x ∷ xs) h =
      let rest = filter-filter q xs (λ a m. h a (Memᴰ.tail m)) in
      elim (Bool-cases (p x)) [
        | inl wanted ↦ rw (h x (Memᴰ.head refl) wanted, wanted, rest)
        | inr unwanted ↦ elim (Bool-cases (q x)) [
          | inl kept ↦ rw (kept, unwanted, rest)
          | inr dropped ↦ rw (dropped, unwanted, rest)
        ]
      ]

  pub filter-append : (xs ys : List A) → filter p (xs ++ ys) ≡ filter p xs ++ filter p ys
  filter-append [] ys = refl
  filter-append (x ∷ xs) ys = elim (Bool-cases (p x)) [
    | inl kept ↦ rw (kept, filter-append xs ys)
    | inr dropped ↦ rw (dropped, filter-append xs ys)
  ]

module _ {ℓ κ} {A : Type ℓ} (P : A → Type κ) where
  pub All-append : (xs ys : List A) → All P xs → All P ys → All P (xs ++ ys)
  All-append [] ys h k = k
  All-append (x ∷ xs) ys (p, h) k = (p, All-append xs ys h k)
