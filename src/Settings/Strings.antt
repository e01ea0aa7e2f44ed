-- ===== src/Settings/Strings.antt =====
-- What text can reach a command line from a client
-- (crates/metralectl-core/src/settings/mod.rs, over the tables beside it).
use metralectl.Prelude.{
  ℕ, ◌≡◌, refl, sym, ap, Bool, true, false, ◌&&◌, ◌||◌, List, [], ◌∷◌, Memᴰ, some, String, arith,
  Option-cases, inl, inr, ◌∙◌,
}
use metralectl.Prelude.{all, All, codes, leb, ◌==◌, find, find-some, str_eq, ok}
use metralectl.Settings.Spec.{BoundSpec, to_bound, Disposition}
use metralectl.Settings.Check.{Floats}
use metralectl.Settings.Accepted.{Permits}
use metralectl.Settings.Validated.{AllowsAll, validate_iff}
use metralectl.Settings.Gate.{
  ScalarValue, Requested, Overrides, dispositions, row_disposition, disposition, to_scalar,
  validate,
}
use metralectl.Protocol.{SettingValue}

abbrev is_alphanumeric : ℕ → Bool
is_alphanumeric c = leb b'0' c && leb c b'9' || leb b'a' c && leb c b'z' || leb b'A' c && leb c b'Z'

-- Letters, digits, `_` and `-`, and the first of them no `-`.
abbrev pub is_word : List ℕ → Bool
is_word [] = false
is_word (c ∷ cs) = is_alphanumeric c && all (λ x. is_alphanumeric x || x == b'_' || x == b'-') cs

abbrev pub IsWord : ScalarValue → Type 0
IsWord (ScalarValue.str s) = is_word (codes s) ≡ true
IsWord _ = Unit

abbrev bound_words : BoundSpec → Bool
bound_words (BoundSpec.one_of variants) = all (λ s. is_word (codes s)) variants
bound_words _ = true

abbrev row_words : Disposition → Bool
row_words (Disposition.expose spec) = bound_words spec.bound
row_words (Disposition.deny reason) = true

table_words : all (λ row. row_words row.1) dispositions ≡ true
unfolding dispositions
table_words = refl

mem-true {ℓ} :
    {A : Type ℓ} (p : A → Bool) {a : A} (xs : List A) → all p xs ≡ true → Memᴰ a xs → p a ≡ true
mem-true p [] h m = elim m [ ]
mem-true p (x ∷ xs) h (Memᴰ.head e) = rw e (ground arith)
mem-true p (x ∷ xs) h (Memᴰ.tail m) = mem-true p xs (ground arith) m

disposition-words : (key : String) (d : Disposition) → disposition key ≡ some d → row_words d ≡ true
unfolding disposition
disposition-words key d h = elim (Option-cases (find (λ row. str_eq row.0 key) dispositions)) [
  | inl e ↦ absurd (ground (arith, e))
  | inr ((k, d'), e) ↦
      let (m, _) = find-some (λ row. str_eq row.0 key) dispositions e in
      let same : d' ≡ d = some_eq (sym (ap row_disposition e) ∙ h) in
      rw (← same) (mem-true (λ row. row_words row.1) dispositions table_words m)
]
  where
    some_eq : {x y : Disposition} → some x ≡ some y → x ≡ y
    some_eq e = cc

permitted-IsWord :
    (f : Floats) (b : BoundSpec) (sent kept : SettingValue)
    → bound_words b ≡ true
    → Permits f (to_bound b) sent kept
    → IsWord (to_scalar kept)
permitted-IsWord f (BoundSpec.int min max) sent kept h (n, _, is, _, _) = rw is tt
permitted-IsWord f (BoundSpec.float min max) sent kept h (x, _, is, _, _, _) = rw is tt
permitted-IsWord f (BoundSpec.one_of variants) sent kept h (s, _, is, m) =
    rw is (mem-true (λ s. is_word (codes s)) variants h m)
permitted-IsWord f BoundSpec.toggle sent kept h (b, _, is) = rw is tt
permitted-IsWord f (BoundSpec.int_or_auto min max) sent kept h (inl (_, is)) = rw is refl
permitted-IsWord f (BoundSpec.int_or_auto min max) sent kept h (inr (n, _, is, _, _)) = rw is tt

allowed-IsWord :
    (f : Floats) (requested : Requested) (out : Overrides)
    → AllowsAll f requested out
    → All (λ (o : String × ScalarValue). IsWord o.1) out
allowed-IsWord f [] [] a = tt
allowed-IsWord f [] (o ∷ out) a = absurd a
allowed-IsWord f (r ∷ requested) [] a = absurd a
allowed-IsWord f ((key, sent) ∷ requested) ((key', scalar) ∷ out) (_, a, more) = (
  rw a.same (
      permitted-IsWord f a.spec.bound sent a.kept
        (disposition-words key (Disposition.expose a.spec) a.offered) a.permitted),
  allowed-IsWord f requested out more,
)

-- Every text among the overrides of a request that passes is a word: letters, digits, `_` and `-`,
-- not empty, and with no `-` in front, so none of them reads as an option of the command line.
pub validate-IsWord :
    (f : Floats) (requested : Requested) (out : Overrides)
    → validate f requested ≡ ok out
    → All (λ (o : String × ScalarValue). IsWord o.1) out
validate-IsWord f requested out h =
    allowed-IsWord f requested out ((validate_iff f requested out).0 h)
