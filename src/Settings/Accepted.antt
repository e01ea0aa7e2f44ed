-- ===== src/Settings/Accepted.antt =====
-- Which overrides pass (crates/metralectl-core/src/settings/mod.rs,
-- crates/metralectl-protocol/src/settings.rs).
use metralectl.Prelude.{
  ℕ, suc, ◌+◌, ◌≤◌, ◌≡◌, refl, sym, ◌↔◌, ◌⊎◌, inl, inr, Bool, true, false, List, Memᴰ, Option, none,
  some, String, str_eq, eq_iff, find, find-some, find-none, All-mem, false≢true, ◌∙◌, arith,
  Option-cases,
}
use metralectl.Prelude.{ok}
use metralectl.Protocol.{ℤ, pos, negsuc, Float, SettingValue}
use metralectl.Settings.Spec.{Bound}
use metralectl.Settings.Check.{Floats, less, in_range, in_float_range, a_variant, check_bound}
use metralectl.Settings.Gate.{}

abbrev pos_part : ℤ → ℕ
pos_part (pos n) = n
pos_part (negsuc n) = 0

abbrev neg_part : ℤ → ℕ
neg_part (pos n) = 0
neg_part (negsuc n) = suc n

infix 50 ◌≤ℤ◌
abbrev pub ◌≤ℤ◌ : ℤ → ℤ → Type 0
a ≤ℤ b = pos_part a + neg_part b ≤ pos_part b + neg_part a

not-less_iff : (a b : ℤ) → (less a b ≡ false) ↔ (b ≤ℤ a)
not-less_iff (pos m) (pos n) = (λ h. ground arith, λ h. ground arith)
not-less_iff (pos m) (negsuc n) = (λ h. omega arith, λ h. refl)
not-less_iff (negsuc m) (pos n) = (λ h. absurd (cc), λ h. absurd (omega arith))
not-less_iff (negsuc m) (negsuc n) = (λ h. ground arith, λ h. ground arith)

-- A whole number of the range, and the value that stands for it.
abbrev pub InRange : ℤ → ℤ → SettingValue → SettingValue → Type 0
InRange min max sent kept =
    (n : ℤ) × (sent ≡ SettingValue.int n) × (kept ≡ SettingValue.int n) × (min ≤ℤ n) × (n ≤ℤ max)

-- What a bound lets through of what is sent, and as what.
abbrev pub Permits : Floats → Bound → SettingValue → SettingValue → Type 0
Permits f (Bound.int min max) sent kept = InRange min max sent kept
Permits f (Bound.float min max) sent kept =
    (x : Float) × ((sent ≡ SettingValue.float x)
      ⊎ ((n : ℤ) × (sent ≡ SettingValue.int n) × (x ≡ f.of_int n)))
    × (kept ≡ SettingValue.float x)
    × (f.is_finite x ≡ true)
    × (f.lt x min ≡ false)
    × (f.lt max x ≡ false)
Permits f (Bound.one_of variants) sent kept =
    (s : String) × (sent ≡ SettingValue.str s) × (kept ≡ SettingValue.str s) × Memᴰ s variants
Permits f Bound.toggle sent kept =
    (b : Bool) × (sent ≡ SettingValue.bool b) × (kept ≡ SettingValue.bool b)
Permits f Bound.bool_value sent kept =
    (b : Bool) × (sent ≡ SettingValue.bool b) × (kept ≡ SettingValue.bool b)
Permits f (Bound.int_or_auto min max) sent kept =
    ((sent ≡ SettingValue.str "auto") × (kept ≡ SettingValue.str "auto"))
    ⊎ InRange min max sent kept

in_range-ok :
    (min max : ℤ) (key : String) (n : ℤ) (kept : SettingValue)
    → in_range min max key n ≡ ok kept
    → InRange min max (SettingValue.int n) kept
unfolding in_range
in_range-ok min max key n kept h =
    let low : less n min ≡ false = ground arith in
    let high : less max n ≡ false = ground arith in
    (n, refl, ground arith, (not-less_iff n min).0 low, (not-less_iff max n).0 high)

in_range-passes :
    (min max : ℤ) (key : String) (n : ℤ)
    → min ≤ℤ n
    → n ≤ℤ max
    → in_range min max key n ≡ ok (SettingValue.int n)
unfolding in_range
in_range-passes min max key n low high =
    rw ((not-less_iff n min).1 low, (not-less_iff max n).1 high) refl

module _ (f : Floats) where
  in_float_range-ok :
      (min max : Float) (key : String) (x : Float) (kept : SettingValue)
      → in_float_range f min max key x ≡ ok kept
      → (kept ≡ SettingValue.float x)
        × (f.is_finite x ≡ true)
        × (f.lt x min ≡ false)
        × (f.lt max x ≡ false)
  unfolding in_float_range
  in_float_range-ok min max key x kept h = (ground arith, ground arith, ground arith, ground arith)

  a_variant-ok :
      (key : String) (variants : List String) (o : Option String) (kept : SettingValue)
      → a_variant key variants o ≡ ok kept
      → (v : String) × (o ≡ some v) × (kept ≡ SettingValue.str v)
  a_variant-ok key variants none kept h = absurd (cc)
  a_variant-ok key variants (some v) kept h = (v, refl, ground arith)

  pub check_bound-ok :
      (b : Bound) (key : String) (v kept : SettingValue)
      → check_bound f b key v ≡ ok kept
      → Permits f b v kept
  unfolding check_bound
  check_bound-ok (Bound.int min max) key (SettingValue.int n) kept h =
      in_range-ok min max key n kept h
  check_bound-ok (Bound.int min max) key (SettingValue.bool x) kept h = absurd (cc)
  check_bound-ok (Bound.int min max) key (SettingValue.float x) kept h = absurd (cc)
  check_bound-ok (Bound.int min max) key (SettingValue.str x) kept h = absurd (cc)
  check_bound-ok (Bound.float min max) key (SettingValue.float x) kept h =
      let (is, finite, low, high) = in_float_range-ok min max key x kept h in
      (x, inl refl, is, finite, low, high)
  check_bound-ok (Bound.float min max) key (SettingValue.int n) kept h =
      let (is, finite, low, high) = in_float_range-ok min max key (f.of_int n) kept h in
      (f.of_int n, inr (n, refl, refl), is, finite, low, high)
  check_bound-ok (Bound.float min max) key (SettingValue.bool x) kept h = absurd (cc)
  check_bound-ok (Bound.float min max) key (SettingValue.str x) kept h = absurd (cc)
  check_bound-ok (Bound.one_of variants) key (SettingValue.str s) kept h =
      let (v, at, is) = a_variant-ok key variants (find (λ v. str_eq v s) variants) kept h in
      let (m, same) = find-some (λ v. str_eq v s) variants at in
      let eq : v ≡ s = (eq_iff v s).0 same in (s, refl, rw (← eq) is, rw (← eq) m)
  check_bound-ok (Bound.one_of variants) key (SettingValue.bool x) kept h = absurd (cc)
  check_bound-ok (Bound.one_of variants) key (SettingValue.int x) kept h = absurd (cc)
  check_bound-ok (Bound.one_of variants) key (SettingValue.float x) kept h = absurd (cc)
  check_bound-ok Bound.toggle key (SettingValue.bool b) kept h = (b, refl, ground arith)
  check_bound-ok Bound.toggle key (SettingValue.int x) kept h = absurd (cc)
  check_bound-ok Bound.toggle key (SettingValue.float x) kept h = absurd (cc)
  check_bound-ok Bound.toggle key (SettingValue.str x) kept h = absurd (cc)
  check_bound-ok Bound.bool_value key (SettingValue.bool b) kept h = (b, refl, ground arith)
  check_bound-ok Bound.bool_value key (SettingValue.int x) kept h = absurd (cc)
  check_bound-ok Bound.bool_value key (SettingValue.float x) kept h = absurd (cc)
  check_bound-ok Bound.bool_value key (SettingValue.str x) kept h = absurd (cc)
  check_bound-ok (Bound.int_or_auto min max) key (SettingValue.str s) kept h =
      inl (ground (arith, eq_iff s "auto"), ground arith)
  check_bound-ok (Bound.int_or_auto min max) key (SettingValue.int n) kept h =
      inr (in_range-ok min max key n kept h)
  check_bound-ok (Bound.int_or_auto min max) key (SettingValue.bool x) kept h = absurd (cc)
  check_bound-ok (Bound.int_or_auto min max) key (SettingValue.float x) kept h = absurd (cc)

  found-variant :
      (key : String) (variants : List String) (s : String)
      → Memᴰ s variants
      → a_variant key variants (find (λ v. str_eq v s) variants) ≡ ok (SettingValue.str s)
  found-variant key variants s m = elim (Option-cases (find (λ v. str_eq v s) variants)) [
    | inl e ↦
        let unlike =
          All-mem (λ v. str_eq v s ≡ false) variants (find-none (λ v. str_eq v s) variants e) m in
        absurd (false≢true (sym unlike ∙ (eq_iff s s).1 refl))
    | inr (v, e) ↦
        let (_, same) = find-some (λ v. str_eq v s) variants e in
        let eq : v ≡ s = (eq_iff v s).0 same in rw (e, eq) refl
  ]

  passes_float :
      (min max : Float) (key : String) (x : Float)
      → f.is_finite x ≡ true
      → f.lt x min ≡ false
      → f.lt max x ≡ false
      → in_float_range f min max key x ≡ ok (SettingValue.float x)
  unfolding in_float_range
  passes_float min max key x finite low high = rw (finite, low, high) refl

  pub check_bound-passes :
      (b : Bound) (key : String) (v kept : SettingValue)
      → Permits f b v kept
      → check_bound f b key v ≡ ok kept
  unfolding check_bound
  check_bound-passes (Bound.int min max) key v kept (n, is, as_n, low, high) =
      rw (is, as_n) (in_range-passes min max key n low high)
  check_bound-passes (Bound.float min max) key v kept (x, inl is, as_x, finite, low, high) =
      rw (is, as_x) (passes_float min max key x finite low high)
  check_bound-passes (Bound.float min max) key v kept
        (x, inr (n, is, conv), as_x, finite, low, high) =
      rw (is, as_x, ← conv) (passes_float min max key x finite low high)
  check_bound-passes (Bound.one_of variants) key v kept (s, is, as_s, m) =
      rw (is, as_s) (found-variant key variants s m)
  check_bound-passes Bound.toggle key v kept (b, is, as_b) = rw (is, as_b) refl
  check_bound-passes Bound.bool_value key v kept (b, is, as_b) = rw (is, as_b) refl
  check_bound-passes (Bound.int_or_auto min max) key v kept (inl (is, as_auto)) =
      rw (is, as_auto) refl
  check_bound-passes (Bound.int_or_auto min max) key v kept (inr (n, is, as_n, low, high)) =
      rw (is, as_n) (in_range-passes min max key n low high)
