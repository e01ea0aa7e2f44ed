-- ===== src/Shell/Words.antt =====
-- A pasted line gives back the arguments (crates/metralectl-core/src/docker/quote.rs), by the
-- words that a POSIX shell reads on it.
use metralectl.Prelude.{
  ℕ, ◌<◌, zero, suc, not, ◌≡◌, refl, sym, ap, ◌∙◌, Bool, true, false, ◌&&◌, ◌||◌, List, [], ◌∷◌,
  ◌++◌, map, append_assoc, append-nil, Option, none, some, all, any, ◌==◌, if◌then◌else◌, codes,
  arith, Bool-cases, inl, inr,
}
use metralectl.Shell.{is_safe, escape, shell_quote, joined, shell_join}

-- Where the reader stands: between words, or in a word read so far, bare or within quotes.
pub data Mode : Type 0 where
  between : Mode
  bare : List ℕ → Mode
  single : List ℕ → Mode
  double : List ℕ → Mode

-- What one character does: it is refused where the shell would expand it or end the command.
pub data Move : Type 0 where
  refused : Move
  goes : Mode → Move
  ends : List ℕ → Move

-- The characters that a shell may read as more than themselves outside quotes.
is_special : ℕ → Bool
is_special c = any (λ s. s == c) (codes "|&;<>()$`\\\"'*?[]#~!{}%^ \t\n")

unquoted : List ℕ → ℕ → Move
unfolding is_special
unquoted word c =
    if c == b'\''
    then goes (single word)
    else if c == b'"'
    then goes (double word)
    else if is_special c
    then refused
    else goes (bare (word ++ c ∷ []))

pub move : Mode → ℕ → Move
unfolding unquoted
move between c = if c == b' ' then goes between else unquoted [] c
move (bare word) c = if c == b' ' then ends word else unquoted word c
move (single word) c = if c == b'\'' then goes (bare word) else goes (single (word ++ c ∷ []))
move (double word) c =
    if c == b'"'
    then goes (bare word)
    else if c == b'$' || c == b'`' || c == b'\\'
    then refused
    else goes (double (word ++ c ∷ []))

-- An open quote has no last word.
abbrev finish : Mode → Option (List (List ℕ))
finish between = some []
finish (bare word) = some (word ∷ [])
finish (single word) = none
finish (double word) = none

abbrev before : List ℕ → Option (List (List ℕ)) → Option (List (List ℕ))
before word none = none
before word (some words) = some (word ∷ words)

follow : Move → (Mode → Option (List (List ℕ))) → Option (List (List ℕ))
follow refused rest = none
follow (goes m) rest = rest m
follow (ends word) rest = before word (rest between)

pub read_from : Mode → List ℕ → Option (List (List ℕ))
unfolding move follow
read_from m [] = finish m
read_from m (c ∷ cs) = follow (move m c) (λ m'. read_from m' cs)

-- The words of a line.
unfoldable pub read_words : List ℕ → Option (List (List ℕ))
unfolding read_from
read_words line = read_from between line

-- A character that stands for itself outside quotes.
is_plain : ℕ → Bool
is_plain c = not (c == b' ') && not (c == b'\'') && not (c == b'"') && not (is_special c)

all_below : ℕ → (ℕ → Bool) → Bool
all_below zero p = true
all_below (suc n) p = p n && all_below n p

all_below-true : (n : ℕ) (p : ℕ → Bool) (x : ℕ) → all_below n p ≡ true → x < n → p x ≡ true
unfolding all_below
all_below-true zero p x h lt = absurd (omega arith)
all_below-true (suc n) p x h lt = ground (arith, all_below-true n p x)

safe_table : all_below 123 (λ c. not (is_safe c) || is_plain c) ≡ true
unfolding all_below is_safe is_plain is_special
safe_table = refl

safe-lt : (c : ℕ) → is_safe c ≡ true → c < 123
unfolding is_safe
safe-lt c h = ground arith

safe-plain : (c : ℕ) → is_safe c ≡ true → is_plain c ≡ true
safe-plain c h =
    let row = all_below-true 123 (λ c. not (is_safe c) || is_plain c) c safe_table (safe-lt c h) in
    ground arith

module _ (word : List ℕ) (c : ℕ) (h : is_safe c ≡ true) where
  safe-move :
      (move (bare word) c ≡ goes (bare (word ++ c ∷ []))) × (move between c ≡ goes (bare (c ∷ [])))
  unfolding move unquoted is_plain
  safe-move = let plain = safe-plain c h in ground arith

module _ (m : Mode) (c : ℕ) (s : List ℕ) where
  read-goes : {m' : Mode} → move m c ≡ goes m' → read_from m (c ∷ s) ≡ read_from m' s
  unfolding read_from
  read-goes e = ap (λ v. follow v (λ m'. read_from m' s)) e

  read-ends :
      {word : List ℕ}
      → move m c ≡ ends word
      → read_from m (c ∷ s) ≡ before word (read_from between s)
  unfolding read_from
  read-ends e = ap (λ v. follow v (λ m'. read_from m' s)) e

-- Safe characters are read into the word.
read-bare :
    (xs word s : List ℕ)
    → all is_safe xs ≡ true
    → read_from (bare word) (xs ++ s) ≡ read_from (bare (word ++ xs)) s
read-bare [] word s h = rw (append-nil word) refl
read-bare (x ∷ xs) word s h =
    let safe : is_safe x ≡ true = ground arith in
    let rest : all is_safe xs ≡ true = ground arith in
    read-goes (bare word) x (xs ++ s) (safe-move word x safe).0
    ∙ read-bare xs (word ++ x ∷ []) s rest
    ∙ rw (append_assoc word (x ∷ []) xs) refl

single-move :
    (word : List ℕ) (c : ℕ)
    → (c == b'\'') ≡ false
    → move (single word) c ≡ goes (single (word ++ c ∷ []))
unfolding move
single-move word c h = rw h refl

-- What is escaped within single quotes is read as it was.
reopened :
    (word s : List ℕ)
    → read_from (single word) (codes "'\"'\"'" ++ s) ≡ read_from (single (word ++ b'\'' ∷ [])) s
unfolding read_from
reopened word s = refl

opens : move between b'\'' ≡ goes (single [])
unfolding move
opens = refl

closes : (word : List ℕ) → move (single word) b'\'' ≡ goes (bare word)
unfolding move
closes word = refl

nothing : read_from between [] ≡ some []
unfolding read_from
nothing = refl

last : (x : List ℕ) → read_from (bare x) [] ≡ some (x ∷ [])
unfolding read_from
last x = refl

read-escape :
    (xs word s : List ℕ)
    → read_from (single word) (escape xs ++ s) ≡ read_from (single (word ++ xs)) s
unfolding escape
read-escape [] word s = rw (append-nil word) refl
read-escape (x ∷ xs) word s = elim (Bool-cases (x == b'\'')) [
  | inl quote ↦
      let at : x ≡ b'\'' = ground arith in
      rw at (
        reopened word (escape xs ++ s)
        ∙ read-escape xs (word ++ b'\'' ∷ []) s
        ∙ rw (append_assoc word (b'\'' ∷ []) xs) refl)
  | inr other ↦ rw other (
      read-goes (single word) x (escape xs ++ s) (single-move word x other)
      ∙ read-escape xs (word ++ x ∷ []) s
      ∙ rw (append_assoc word (x ∷ []) xs) refl)
]

-- A quoted argument is one word.
read-quote : (x s : List ℕ) → read_from between (shell_quote x ++ s) ≡ read_from (bare x) s
unfolding shell_quote
read-quote [] s =
    read-goes between b'\'' (b'\'' ∷ s) opens ∙ read-goes (single []) b'\'' s (closes [])
read-quote (c ∷ cs) s = elim (Bool-cases (all is_safe (c ∷ cs))) [
  | inl safe ↦
      let first : is_safe c ≡ true = ground arith in
      let rest : all is_safe cs ≡ true = ground arith in
      rw safe
        (read-goes between c (cs ++ s) (safe-move [] c first).1 ∙ read-bare cs (c ∷ []) s rest)
  | inr other ↦
      rw (other, append_assoc (escape (c ∷ cs)) (b'\'' ∷ []) s)
        (read-goes between b'\'' _ opens
          ∙ read-escape (c ∷ cs) [] (b'\'' ∷ s)
          ∙ read-goes (single (c ∷ cs)) b'\'' s (closes (c ∷ cs)))
]

space-ends : (word : List ℕ) → move (bare word) b' ' ≡ ends word
unfolding move
space-ends word = refl

read-joined : (args : List (List ℕ)) → read_from between (joined (map shell_quote args)) ≡ some args
unfolding joined
read-joined [] = nothing
read-joined (x ∷ []) =
    ap (read_from between) (sym (append-nil (shell_quote x))) ∙ read-quote x [] ∙ last x
read-joined (x ∷ y ∷ ys) =
    read-quote x (b' ' ∷ joined (map shell_quote (y ∷ ys)))
    ∙ read-ends (bare x) b' ' (joined (map shell_quote (y ∷ ys))) (space-ends x)
    ∙ ap (before x) (read-joined (y ∷ ys))

-- A POSIX shell that reads the joined line reads exactly the arguments, whatever is in them.
pub read_words-shell_join : (args : List (List ℕ)) → read_words (shell_join args) ≡ some args
unfolding read_words shell_join
read_words-shell_join args = read-joined args
