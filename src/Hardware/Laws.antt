-- ===== src/Hardware/Laws.antt =====
-- When the hardware gate lets a launch through (crates/metralectl-core/src/hardware.rs).
use metralectl.Prelude.{
  lower, ℕ, ◌≡◌, ◌≢◌, ◌∙◌, ◌↔◌, ◌⊎◌, inl, inr, refl, sym, ap, Bool, true, false, ◌||◌, arith, ◌==◌,
}
use metralectl.Prelude.{
  List, [], ◌∷◌, ◌++◌, map, none, some, String, codes, eq_iff, Bool-cases, Option-cases,
}
use metralectl.Prelude.{if◌then◌else◌}
use metralectl.Hardware.{HardwareClass, gb10, starts, contains, classify, check}

-- The pattern stands somewhere in the text.
pub record IsWithin (pattern text : List ℕ) : Type 0 where
  pub before : List ℕ
  pub after : List ℕ
  pub joined : text ≡ before ++ pattern ++ after

starts-true : (p t : List ℕ) → starts p t ≡ true → (rest : List ℕ) × (t ≡ p ++ rest)
unfolding starts
starts-true [] t e = (t, refl)
starts-true (x ∷ p) [] e = absurd (cc)
starts-true (x ∷ p) (c ∷ t) e = elim (Bool-cases (x == c)) [
  | inl same ↦
      let (rest, joined) = starts-true p t (rw same at e) in
      let at : x ≡ c = ground arith in (rest, rw (at, joined))
  | inr other ↦ absurd (ground arith)
]

starts-append : (p rest : List ℕ) → starts p (p ++ rest) ≡ true
unfolding starts
starts-append [] rest = refl
starts-append (x ∷ p) rest = ground (arith, starts-append p rest)

contains-true : (p t : List ℕ) → contains p t ≡ true → IsWithin p t
unfolding contains
contains-true p [] e =
    let (rest, joined) = starts-true p [] e in record { before = []; after = rest; joined = joined }
contains-true p (c ∷ t) e = elim (Bool-cases (starts p (c ∷ t))) [
  | inl here ↦
      let (rest, joined) = starts-true p (c ∷ t) here in
      record { before = []; after = rest; joined = joined }
  | inr later ↦
      let inner = contains-true p t (rw later at e) in
      record {
        before = c ∷ inner.before;
        after = inner.after;
        joined = ap (λ x. c ∷ x) inner.joined;
      }
]

starts-contains : (p t : List ℕ) → starts p t ≡ true → contains p t ≡ true
unfolding contains
starts-contains p [] e = e
starts-contains p (c ∷ t) e = rw e refl

contains-append : (p before after : List ℕ) → contains p (before ++ p ++ after) ≡ true
unfolding contains
contains-append p [] after = starts-contains p (p ++ after) (starts-append p after)
contains-append p (c ∷ before) after = ground (arith, contains-append p before after)

contains_iff : (p t : List ℕ) → (contains p t ≡ true) ↔ IsWithin p t
contains_iff p t = (contains-true p t, λ i. rw i.joined (contains-append p i.before i.after))

-- The name, in lower case, has one of the two names of the family in it.
abbrev pub IsFamily : String → Type 0
IsFamily accelerator =
    IsWithin (codes "gb10") (map lower (codes accelerator))
    ⊎ IsWithin (codes "grace blackwell") (map lower (codes accelerator))

named :
    (a b : Bool) (class : HardwareClass)
    → (if a || b then some gb10 else none) ≡ some class
    → (class ≡ gb10) × ((a ≡ true) ⊎ (b ≡ true))
named true b class e = (ground arith, inl refl)
named false true class e = (ground arith, inr refl)
named false false class e = absurd (cc)

classify-IsFamily :
    (accelerator : String) (class : HardwareClass)
    → classify accelerator ≡ some class
    → (class ≡ gb10) × IsFamily accelerator
unfolding classify
classify-IsFamily accelerator class e =
    let (is, where_named) = named _ _ class e in
    elim where_named [
      | inl short ↦ (is, inl ((contains_iff _ _).0 short))
      | inr long ↦ (is, inr ((contains_iff _ _).0 long))
    ]

IsFamily-classify : (accelerator : String) → IsFamily accelerator → classify accelerator ≡ some gb10
unfolding classify
IsFamily-classify accelerator (inl short) = rw ((contains_iff _ _).1 short) refl
IsFamily-classify accelerator (inr long) = rw ((contains_iff _ _).1 long) (ground arith)

check-unknown :
    (required : HardwareClass) (accelerator : String)
    → classify accelerator ≡ none
    → check required accelerator ≢ none
unfolding check
check-unknown required accelerator e passed = ground arith

check-known :
    (required here : HardwareClass) (accelerator : String)
    → classify accelerator ≡ some here
    → check required accelerator ≡ none
    → here ≡ required
unfolding check
check-known required here accelerator e passed = ground (arith, eq_iff here required)

check-same :
    (required : HardwareClass) (accelerator : String)
    → classify accelerator ≡ some required
    → check required accelerator ≡ none
unfolding check
check-same required accelerator e = ground (arith, eq_iff required required)

-- A launch that requires a class passes the gate only on a machine whose accelerator names the one
-- known family, in any case of letters, and only if it requires that family's class; such a launch
-- passes.
pub check-none_iff :
    (required : HardwareClass) (accelerator : String)
    → (check required accelerator ≡ none) ↔ ((required ≡ gb10) × IsFamily accelerator)
check-none_iff required accelerator = (to, from)
  where
    to : check required accelerator ≡ none → (required ≡ gb10) × IsFamily accelerator
    to passed = elim (Option-cases (classify accelerator)) [
      | inl unknown ↦ absurd (check-unknown required accelerator unknown passed)
      | inr (here, known) ↦
          let (is, family) = classify-IsFamily accelerator here known in
          (sym (check-known required here accelerator known passed) ∙ is, family)
    ]

    from : (required ≡ gb10) × IsFamily accelerator → check required accelerator ≡ none
    from (is, family) =
        check-same required accelerator (IsFamily-classify accelerator family ∙ ap some (sym is))
