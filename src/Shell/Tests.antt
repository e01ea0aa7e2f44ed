-- ===== src/Shell/Tests.antt =====
-- Inputs for the laws of shell quoting.
use metralectl.Prelude.{ℕ, ◌≡◌, refl, List, [], ◌∷◌, some, codes}
use metralectl.Shell.{shell_quote, shell_join}
use metralectl.Shell.Words.{read_words, read_words-shell_join}

abbrev arguments : List (List ℕ)
arguments = codes "run" ∷ [] ∷ codes "it's $HOME" ∷ []

quotes_quote : shell_quote (codes "it's") ≡ codes "'it'\"'\"'s'"
unfolding shell_quote
quotes_quote = refl

joins : shell_join arguments ≡ codes "run '' 'it'\"'\"'s $HOME'"
unfolding shell_join
joins = refl

read_words-shell_join_example : read_words (shell_join arguments) ≡ some arguments
read_words-shell_join_example = read_words-shell_join arguments
