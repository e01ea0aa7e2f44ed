-- ===== src/Protocol/Name.antt =====
-- The recipe identifier and its parser (crates/metralectl-protocol/src/id.rs).
use metralectl.Prelude.{
  ℕ, ◌+◌, Bool, false, not, ◌&&◌, ◌||◌, List, [], ◌∷◌, Option, none, some, String, codes, leb, ltb,
  ◌==◌,
}
use metralectl.Prelude.{if◌then◌else◌, find, Result, ok, err}

pub data RecipeIdError : Type 0 where
  bad_length : (got : ℕ) → RecipeIdError
  charset : (c : ℕ) → RecipeIdError
  punctuation : String → RecipeIdError

-- `str::len`: the bytes of UTF-8.
abbrev pub byte_length : List ℕ → ℕ
byte_length [] = 0
byte_length (c ∷ cs) =
    (if ltb c 128 then 1 else if ltb c 2048 then 2 else if ltb c 65536 then 3 else 4)
    + byte_length cs

abbrev pub is_lower_or_digit : ℕ → Bool
is_lower_or_digit c = leb b'a' c && leb c b'z' || leb b'0' c && leb c b'9'

abbrev pub is_id_char : ℕ → Bool
is_id_char c = is_lower_or_digit c || c == b'.' || c == b'-'

abbrev pub first_or_dash : List ℕ → ℕ
first_or_dash [] = b'-'
first_or_dash (c ∷ cs) = c

abbrev pub last_or_dash : List ℕ → ℕ
last_or_dash [] = b'-'
last_or_dash (c ∷ []) = c
last_or_dash (c ∷ d ∷ cs) = last_or_dash (d ∷ cs)

-- `contains("..")`.
abbrev pub has_dots : List ℕ → Bool
has_dots [] = false
has_dots (c ∷ []) = false
has_dots (c ∷ d ∷ cs) = c == b'.' && d == b'.' || has_dots (d ∷ cs)

abbrev pub punctuated : String → List ℕ → Result RecipeIdError String
punctuated s cs =
    if not (is_lower_or_digit (first_or_dash cs))
    then err (punctuation "must start with a letter or digit")
    else if last_or_dash cs == b'.' || last_or_dash cs == b'-'
    then err (punctuation "must not end with `.` or `-`")
    else if has_dots cs
    then err (punctuation "must not contain `..`")
    else ok s

abbrev pub in_charset : String → List ℕ → Option ℕ → Result RecipeIdError String
in_charset s cs (some c) = err (charset c)
in_charset s cs none = punctuated s cs

-- `RecipeId::parse`.
unfoldable pub parse_name : String → Result RecipeIdError String
parse_name s =
    let cs = codes s in
    if byte_length cs == 0 || ltb 64 (byte_length cs)
    then err (bad_length (byte_length cs))
    else in_charset s cs (find (λ c. not (is_id_char c)) cs)
