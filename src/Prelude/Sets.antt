-- ===== src/Prelude/Sets.antt =====
-- Membership by an equality test: `contains` of a set or a slice, and byte strings.
use Prim.Native.Nat.{ℕ}
use mathlib.Core.Path.{◌≡◌, refl}
use mathlib.Core.Logic.{◌↔◌, inl, inr}
use mathlib.Core.Bool.{Bool, true, false, ◌&&◌}
use mathlib.Core.List.{List, [], ◌∷◌, Memᴰ}
use native.Mathlib.Omega.{arith}
use metralectl.Prelude.Tests.{◌==◌, Bool-cases}
use metralectl.Prelude.Lists.{any, all}

abbrev pub Bytes : Type 0
Bytes = List ℕ

abbrev pub bytes_eq : Bytes → Bytes → Bool
bytes_eq [] [] = true
bytes_eq [] (y ∷ ys) = false
bytes_eq (x ∷ xs) [] = false
bytes_eq (x ∷ xs) (y ∷ ys) = x == y && bytes_eq xs ys

pub bytes_eq→eq : (xs ys : Bytes) → bytes_eq xs ys ≡ true → xs ≡ ys
bytes_eq→eq [] [] h = refl
bytes_eq→eq [] (y ∷ ys) h = absurd (cc)
bytes_eq→eq (x ∷ xs) [] h = absurd (cc)
bytes_eq→eq (x ∷ xs) (y ∷ ys) h = ground (arith, bytes_eq→eq xs ys)

pub bytes_eq_self : (xs : Bytes) → bytes_eq xs xs ≡ true
bytes_eq_self [] = refl
bytes_eq_self (x ∷ xs) = ground (arith, bytes_eq_self xs)

pub bytes_eq_iff : (xs ys : Bytes) → (bytes_eq xs ys ≡ true) ↔ (xs ≡ ys)
bytes_eq_iff xs ys = (bytes_eq→eq xs ys, λ e. rw e (bytes_eq_self ys))

module _ {A : Type 0} (eq : A → A → Bool) where
  abbrev pub has : List A → A → Bool
  has xs a = any (eq a) xs

  module _ (iff : (a b : A) → (eq a b ≡ true) ↔ (a ≡ b)) where
    pub has-mem : (xs : List A) (a : A) → has xs a ≡ true → Memᴰ a xs
    has-mem [] a h = absurd (cc)
    has-mem (x ∷ xs) a h = elim (Bool-cases (eq a x)) [
      | inl same ↦ Memᴰ.head ((iff a x).0 same)
      | inr other ↦ Memᴰ.tail (has-mem xs a (rw other at h))
    ]

    pub mem-has : (xs : List A) (a : A) → Memᴰ a xs → has xs a ≡ true
    mem-has [] a m = elim m [ ]
    mem-has (x ∷ xs) a (Memᴰ.head e) = rw ((iff a x).1 e) refl
    mem-has (x ∷ xs) a (Memᴰ.tail m) = ground (arith, mem-has xs a m)

    pub has_iff : (xs : List A) (a : A) → (has xs a ≡ true) ↔ Memᴰ a xs
    has_iff xs a = (has-mem xs a, mem-has xs a)

    pub has-false : (xs : List A) (a : A) → (has xs a ≡ false) ↔ (¬ Memᴰ a xs)
    has-false xs a =
        (λ h m. false-true h (mem-has xs a m), λ h. absent (has xs a) (λ e. h (has-mem xs a e)))
      where
        false-true : {t : Bool} → t ≡ false → t ≡ true → ⊥
        false-true h k = cc

        absent : (t : Bool) → ¬ (t ≡ true) → t ≡ false
        absent true h = absurd (h refl)
        absent false h = refl

-- A test that some member fails.
module _ {A : Type 0} (p : A → Bool) where
  pub all-false : (xs : List A) → all p xs ≡ false → (a : A) × Memᴰ a xs × (p a ≡ false)
  all-false [] h = absurd (cc)
  all-false (x ∷ xs) h = elim (Bool-cases (p x)) [
    | inl holds ↦ let (a, m, q) = all-false xs (rw holds at h) in (a, Memᴰ.tail m, q)
    | inr fails ↦ (x, Memᴰ.head refl, fails)
  ]

  pub mem-all : (xs : List A) (a : A) → Memᴰ a xs → p a ≡ false → all p xs ≡ false
  mem-all [] a m h = elim m [ ]
  mem-all (x ∷ xs) a (Memᴰ.head e) h = rw (rw e at h) refl
  mem-all (x ∷ xs) a (Memᴰ.tail m) h = ground (arith, mem-all xs a m h)
