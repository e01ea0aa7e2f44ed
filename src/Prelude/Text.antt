-- ===== src/Prelude/Text.antt =====
-- Text: equality, joining and slicing of native strings, and decimal printing (`Display` of an
-- unsigned integer).
use Prim.Native.Nat.{ℕ, ◌+◌, zero, suc, ◌/◌, ◌%◌}
use Prim.Native.Char.{code}
use Prim.Native.String
use Prim.Native.String.{String}
use text.Mathlib.TextLemmas.{nil-append}
use text.Mathlib.Text.{◌==◌}
use mathlib.Core.Path.{◌≡◌}
use mathlib.Core.Bool.{Bool, ◌&&◌}
use mathlib.Core.List.{List, [], ◌∷◌}
use metralectl.Prelude.Tests.{leb, ltb, if◌then◌else◌}

abbrev pub str_eq : String → String → Bool
str_eq a b = a == b

infixr 65 ◌<>◌
abbrev pub ◌<>◌ : String → String → String
a <> b = String.◌++◌ a b

pub nil-joined : (s : String) → "" <> s ≡ s
nil-joined = nil-append

-- The first characters of a text, and the rest.
abbrev pub take_chars : ℕ → String → String
take_chars zero s = ""
take_chars (suc n) String.[] = ""
take_chars (suc n) (String.◌∷◌ c s) = String.◌∷◌ c (take_chars n s)

abbrev pub drop_chars : ℕ → String → String
drop_chars zero s = s
drop_chars (suc n) String.[] = ""
drop_chars (suc n) (String.◌∷◌ c s) = drop_chars n s

-- The name at a place of a list of names.
abbrev pub digit_text : ℕ → List String → String
digit_text n [] = ""
digit_text zero (d ∷ ds) = d
digit_text (suc n) (d ∷ ds) = digit_text n ds

abbrev digit_names : List String
digit_names = "0" ∷ "1" ∷ "2" ∷ "3" ∷ "4" ∷ "5" ∷ "6" ∷ "7" ∷ "8" ∷ "9" ∷ []

-- The digits of `n`, the last of them first handed on; `n` rounds are more than its digits.
decimal_from : ℕ → ℕ → String
decimal_from zero n = ""
decimal_from (suc f) n =
    let front = decimal_from f (n / 10) in
    let last = digit_text (n % 10) digit_names in if ltb n 10 then last else front <> last

unfoldable pub decimal : ℕ → String
unfolding decimal_from
decimal n = decimal_from (suc n) n

-- The code points of a text.
abbrev pub codes : String → List ℕ
codes String.[] = []
codes (String.◌∷◌ c s) = code c ∷ codes s

-- `to_ascii_lowercase` of one code point.
abbrev pub lower : ℕ → ℕ
lower c = if leb b'A' c && leb c b'Z' then c + 32 else c
