-- ===== src/Shell.antt =====
-- Shell quoting of the command that the website shows
-- (crates/metralectl-core/src/docker/quote.rs). A text is its code points.
mod Words
mod Tests
use metralectl.Prelude.{
  ℕ, Bool, ◌&&◌, ◌||◌, List, [], ◌∷◌, ◌++◌, map, all, any, leb, ◌==◌, if◌then◌else◌, codes,
}

-- Characters that need no quotes.
unfoldable pub is_safe : ℕ → Bool
is_safe c =
    leb b'0' c && leb c b'9'
    || leb b'A' c && leb c b'Z'
    || leb b'a' c && leb c b'z'
    || any (λ s. s == c) (codes "_-./:=,@+")

-- `replace('\'', …)`: close, a quoted quote, reopen.
unfoldable pub escape : List ℕ → List ℕ
escape [] = []
escape (c ∷ cs) = (if c == b'\'' then codes "'\"'\"'" else c ∷ []) ++ escape cs

unfoldable pub shell_quote : List ℕ → List ℕ
unfolding is_safe escape
shell_quote [] = codes "''"
shell_quote (c ∷ cs) =
    if all is_safe (c ∷ cs) then c ∷ cs else b'\'' ∷ (escape (c ∷ cs) ++ b'\'' ∷ [])

-- `join(" ")`.
unfoldable pub joined : List (List ℕ) → List ℕ
joined [] = []
joined (w ∷ []) = w
joined (w ∷ v ∷ ws) = w ++ b' ' ∷ joined (v ∷ ws)

unfoldable pub shell_join : List (List ℕ) → List ℕ
unfolding shell_quote joined
shell_join args = joined (map shell_quote args)
