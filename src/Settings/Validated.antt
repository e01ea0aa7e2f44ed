-- ===== src/Settings/Validated.antt =====
-- Which requests pass as a whole (`validate` of crates/metralectl-core/src/settings/mod.rs).
use metralectl.Prelude.{
  ◌≡◌, refl, sym, ap, ◌∙◌, ◌↔◌, List, [], ◌∷◌, Option, none, some, String, arith,
}
use metralectl.Prelude.{Result, ok, err, bind-ok}
use metralectl.Protocol.{SettingValue, SettingError}
use metralectl.Settings.Spec.{to_bound, Spec, Disposition}
use metralectl.Settings.Check.{Floats, check_bound}
use metralectl.Settings.Accepted.{Permits, check_bound-ok, check_bound-passes}
use metralectl.Settings.Gate.{
  ScalarValue, Requested, Overrides, disposition, to_scalar, judged, judge, gather, judge_all,
  unless_errors, validate,
}

module _ (f : Floats) where
  -- The key is one that a client may set, and its bound permits the value.
  pub record Allows (key : String) (sent : SettingValue) (scalar : ScalarValue) : Type 0 where
    pub spec : Spec
    pub offered : disposition key ≡ some (Disposition.expose spec)
    pub kept : SettingValue
    pub permitted : Permits f (to_bound spec.bound) sent kept
    pub same : scalar ≡ to_scalar kept

  -- Key by key, in order.
  abbrev pub AllowsAll : Requested → Overrides → Type 0
  AllowsAll [] [] = Unit
  AllowsAll [] (o ∷ out) = ⊥
  AllowsAll (r ∷ requested) [] = ⊥
  AllowsAll ((key, sent) ∷ requested) ((key', scalar) ∷ out) =
      (key' ≡ key) × Allows key sent scalar × AllowsAll requested out

  judged-ok :
      (d : Option Disposition) (key : String) (sent : SettingValue) (scalar : ScalarValue)
      → disposition key ≡ d
      → judged f d key sent ≡ ok scalar
      → Allows key sent scalar
  judged-ok none key sent scalar e h = absurd (cc)
  judged-ok (some (Disposition.deny reason)) key sent scalar e h = absurd (cc)
  judged-ok (some (Disposition.expose spec)) key sent scalar e h =
      let (kept, passed, same) = bind-ok (check_bound f (to_bound spec.bound) key sent) _ h in
      record {
        spec = spec;
        offered = e;
        kept = kept;
        permitted = check_bound-ok f (to_bound spec.bound) key sent kept passed;
        same = ground (arith, same);
      }

  judge_iff :
      (key : String) (sent : SettingValue) (scalar : ScalarValue)
      → (judge f key sent ≡ ok scalar) ↔ Allows key sent scalar
  unfolding judge
  judge_iff key sent scalar = (
    λ h. judged-ok (disposition key) key sent scalar refl h,
    λ a.
        rw
          (
            a.offered,
            check_bound-passes f (to_bound a.spec.bound) key sent a.kept a.permitted,
            a.same,
          )
          refl,
  )

  nil-cons : {x : String × ScalarValue} {xs : Overrides} → [] ≡ x ∷ xs → ⊥
  nil-cons e = cc

  abbrev tail_of : Overrides → Overrides
  tail_of [] = []
  tail_of (x ∷ xs) = xs

  abbrev head_of : Overrides → String × ScalarValue
  head_of [] = ("", ScalarValue.str "")
  head_of (x ∷ xs) = x

  pair_eq :
      (p : Overrides × List SettingError) (out : Overrides) → p.0 ≡ out → p.1 ≡ [] → p ≡ (out, [])
  pair_eq (a, b) out e e' = rw (e, e') refl

  gather-kept :
      (key : String) (r : Result SettingError ScalarValue) (rest : Overrides × List SettingError)
      (out : Overrides)
      → gather f key r rest ≡ (out, [])
      → (s : ScalarValue) × (r ≡ ok s) × (rest.1 ≡ []) × (out ≡ (key, s) ∷ rest.0)
  gather-kept key (ok s) (out', errors) out h = (s, refl, ap (λ p. p.1) h, sym (ap (λ p. p.0) h))
  gather-kept key (err e) (out', errors) out h = absurd (ne (ap (λ p. p.1) h))
    where
      ne : e ∷ errors ≡ [] → ⊥
      ne q = cc

  judge_all_iff :
      (requested : Requested) (out : Overrides)
      → (judge_all f requested ≡ (out, [])) ↔ AllowsAll requested out
  unfolding judge_all
  judge_all_iff [] [] = (λ h. tt, λ h. refl)
  judge_all_iff [] (o ∷ out) = (λ h. absurd (nil-cons (ap (λ p. p.0) h)), λ h. absurd h)
  judge_all_iff ((key, sent) ∷ requested) [] = (
    λ h.
        let (s, _, _, more) = gather-kept key (judge f key sent) (judge_all f requested) [] h in
        absurd (nil-cons more),
    λ h. absurd h,
  )
  judge_all_iff ((key, sent) ∷ requested) ((key', scalar) ∷ out) =
      let rest = judge_all_iff requested out in
      (
        λ h.
            let (s, judged_ok, none_wrong, front) =
              gather-kept key (judge f key sent) (judge_all f requested) ((key', scalar) ∷ out) h in
            let more : judge_all f requested ≡ (out, []) =
              pair_eq (judge_all f requested) out (sym (ap tail_of front)) none_wrong in
            let own : scalar ≡ s = ap (λ p. (head_of p).1) front in
            (
              ap (λ p. (head_of p).0) front,
              (judge_iff key sent scalar).0 (judged_ok ∙ ap ok (sym own)),
              rest.0 more,
            ),
        λ (same, allowed, more). rw ((judge_iff key sent scalar).1 allowed, rest.1 more, same) refl,
      )

  unless-ok :
      (p : Overrides × List SettingError) (out : Overrides)
      → unless_errors f p ≡ ok out
      → p ≡ (out, [])
  unless-ok (o, []) out h = ap (λ x. (x, [])) (ground arith)
  unless-ok (o, e ∷ es) out h = absurd (cc)

  -- A request passes just when each of its keys is one that a client may set and its bound permits
  -- the value; what is handed on is, key by key and in order, what the bound lets it stand for.
  pub validate_iff :
      (requested : Requested) (out : Overrides)
      → (validate f requested ≡ ok out) ↔ AllowsAll requested out
  unfolding validate
  validate_iff requested out = (
    λ h. (judge_all_iff requested out).0 (unless-ok (judge_all f requested) out h),
    λ a. rw ((judge_all_iff requested out).1 a) refl,
  )
