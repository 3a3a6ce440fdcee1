-- ===== src/Prelude/Text.antt =====
-- Text as lists of code points: the string operations that the sources use.
use Prim.Native.Nat.{ℕ, ◌+◌}
use Prim.Native.Char.{code}
use Prim.Native.String.{String}
use mathlib.Core.Bool.{Bool, true, false, ◌&&◌, ◌||◌}
use mathlib.Core.List.{List, [], ◌∷◌}
use phus.Prelude.Tests.{leb, ◌==◌, if◌then◌else◌}

-- The code points of a text.
abbrev pub codes : String → List ℕ
codes String.[] = []
codes (String.◌∷◌ c s) = code c ∷ codes s

-- ASCII letters to lower case: what the flag `i` of a pattern without the flag `u` identifies.
abbrev pub lower : ℕ → ℕ
lower c = if leb b'A' c && leb c b'Z' then c + 32 else c

-- `text` begins with `part`.
unfoldable pub is_prefix : List ℕ → List ℕ → Bool
is_prefix [] text = true
is_prefix (c ∷ part) [] = false
is_prefix (c ∷ part) (d ∷ text) = c == d && is_prefix part text

-- `part` occurs in `text`.
unfoldable pub contains : List ℕ → List ℕ → Bool
unfolding is_prefix
contains part [] = is_prefix part []
contains part (c ∷ text) = is_prefix part (c ∷ text) || contains part text
