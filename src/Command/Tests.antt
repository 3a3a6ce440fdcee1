-- ===== src/Command/Tests.antt =====
-- Command lines and what they parse to.
use phus.Prelude.{ℕ, ◌≡◌, refl, some, List, [], ◌∷◌, All}
use phus.Prelude.Text.{codes}
use phus.Command.{ParsedCommand, tokenize, parse}
use phus.Command.Tokens.{IsWord, join, tokenize-join}

-- The quotes are gone before a token is stripped, and a keyword argument keeps its spaces.
abbrev written : ParsedCommand
written = record {
  name = codes "fs.write";
  args = (codes "path", codes "/tmp/x") ∷ (codes "content", codes "hi there") ∷ [];
  positional = [];
}

parses_quotes : parse (codes ",fs.write path=/tmp/x content=\"hi there\"") ≡ some written
unfolding parse
parses_quotes = refl

abbrev words : List (List ℕ)
words = codes "trace" ∷ codes "10" ∷ []

words-All : All IsWord words
words-All = (
  ((λ e. cc e), (refl, (refl, (refl, (refl, (refl, tt)))))),
  (((λ e. cc e), (refl, (refl, tt))), tt),
)

tokenize-join_example : tokenize (join words) ≡ words
tokenize-join_example = tokenize-join words words-All
