-- ===== src/Command.antt =====
-- packages/runtime/src/runtime/internal-commands/parser.ts: a line is the list of its character
-- codes. The object `args` is a list of pairs in the order of their first assignment.
pub mod Tokens
mod Tests
use phus.Prelude.{
  ℕ, ◌+◌, ◌-◌, Bool, true, false, not, ◌&&◌, ◌||◌, Option, none, some, List, [], ◌∷◌, ◌++◌, leb,
  ◌==◌, if◌then◌else◌, length, take, drop,
}

abbrev is_in : List ℕ → ℕ → Bool
is_in [] c = false
is_in (x ∷ xs) c = (x == c) || is_in xs c

-- What `String.prototype.trim` takes away.
abbrev pub is_white : ℕ → Bool
is_white c =
    is_in (9 ∷ 10 ∷ 11 ∷ 12 ∷ 13 ∷ 32 ∷ 160 ∷ 5760 ∷ 8232 ∷ 8233 ∷ 8239 ∷ 8287 ∷ 12288 ∷ 65279 ∷ [])
      c
    || leb 8192 c && leb c 8202

abbrev trim_start : List ℕ → List ℕ
trim_start [] = []
trim_start (c ∷ s) = let rest = trim_start s in if is_white c then rest else c ∷ s

abbrev trim_end : List ℕ → List ℕ
trim_end [] = []
trim_end (c ∷ s) =
    let rest = trim_end s in if is_white c && (length rest == 0) then [] else c ∷ rest

abbrev pub trim : List ℕ → List ℕ
trim s = trim_end (trim_start s)

-- The variables of `tokenize`.
pub record Scan : Type 0 where
  pub out : List (List ℕ)
  pub cur : List ℕ
  pub in_single : Bool
  pub in_double : Bool

-- `if (cur) out.push(cur)`
unfoldable pub push_cur : List (List ℕ) → List ℕ → List (List ℕ)
push_cur out [] = out
push_cur out (c ∷ cur) = out ++ (c ∷ cur) ∷ []

-- The loop, for one character.
unfoldable pub scan_char : ℕ → Scan → Scan
unfolding push_cur
scan_char c st =
    if (c == 39) && not st.in_double
    then record st { in_single = not st.in_single }
    else if (c == 34) && not st.in_single
    then record st { in_double = not st.in_double }
    else if (c == 32) && (not st.in_single && not st.in_double)
    then record st { out = push_cur st.out st.cur; cur = [] }
    else record st { cur = st.cur ++ c ∷ [] }

abbrev pub scan : List ℕ → Scan → Scan
scan [] st = st
scan (c ∷ s) st = scan s (scan_char c st)

abbrev pub new_scan : Scan
new_scan = record { out = []; cur = []; in_single = false; in_double = false }

unfoldable pub tokenize : List ℕ → List (List ℕ)
unfolding scan_char push_cur
tokenize s = let end = scan s new_scan in push_cur end.out end.cur

abbrev last_is : ℕ → List ℕ → Bool
last_is q [] = false
last_is q (c ∷ []) = c == q
last_is q (c ∷ d ∷ s) = last_is q (d ∷ s)

abbrev both_are : ℕ → List ℕ → Bool
both_are q [] = false
both_are q (c ∷ []) = false
both_are q (c ∷ s) = (c == q) && last_is q s

-- `s.slice(1, -1)`
abbrev inner : List ℕ → List ℕ
inner s = take (length s - 2) (drop 1 s)

unfoldable pub strip_quotes : List ℕ → List ℕ
strip_quotes s = if both_are 34 s || both_are 39 s then inner s else s

-- `tok.indexOf("=")`, as the texts before and after it.
unfoldable pub split_eq : List ℕ → Option (List ℕ × List ℕ)
split_eq [] = none
split_eq (c ∷ s) =
    let rest = split_eq s in
    if c == 61
    then some ([], s)
    else elim rest [ none ↦ none | some (key, val) ↦ some (c ∷ key, val) ]

pub record ParsedCommand : Type 0 where
  pub name : List ℕ
  pub args : List (List ℕ × List ℕ)
  pub positional : List (List ℕ)

abbrev same_text : List ℕ → List ℕ → Bool
same_text [] [] = true
same_text (a ∷ xs) (b ∷ ys) = (a == b) && same_text xs ys
same_text _ _ = false

-- `args[key] = val`
unfoldable pub set_arg : List ℕ → List ℕ → List (List ℕ × List ℕ) → List (List ℕ × List ℕ)
set_arg key val [] = (key, val) ∷ []
set_arg key val ((k, v) ∷ args) =
    let rest = set_arg key val args in if same_text k key then (key, val) ∷ args else (k, v) ∷ rest

abbrev is_positive : List ℕ → Bool
is_positive [] = false
is_positive (c ∷ s) = true

-- Whether a token is a keyword argument: `eq > 0 && !kwargDone`.
abbrev keyword_of : Bool → List ℕ → Option (List ℕ × List ℕ)
keyword_of kwarg_done tok = if kwarg_done then none else elim (split_eq tok) [
  | none ↦ none
  | some (key, val) ↦ if is_positive key then some (key, val) else none
]

unfoldable pub parse_args : List (List ℕ) → Bool → ParsedCommand → ParsedCommand
unfolding split_eq set_arg strip_quotes
parse_args [] kwarg_done p = p
parse_args (tok ∷ toks) kwarg_done p = elim (keyword_of kwarg_done tok) [
  | some (key, val) ↦
      parse_args toks kwarg_done (record p { args = set_arg key (strip_quotes val) p.args })
  | none ↦ parse_args toks true (record p { positional = p.positional ++ strip_quotes tok ∷ [] })
]

abbrev parse_tokens : List (List ℕ) → Option ParsedCommand
parse_tokens [] = none
parse_tokens (name ∷ toks) =
    some (parse_args toks false (record { name = name; args = []; positional = [] }))

abbrev parse_body : List ℕ → Option ParsedCommand
parse_body [] = none
parse_body (c ∷ s) = parse_tokens (tokenize (c ∷ s))

abbrev parse_trimmed : List ℕ → Option ParsedCommand
parse_trimmed [] = none
parse_trimmed (c ∷ s) = if c == 44 then parse_body (trim s) else none

unfoldable pub parse : List ℕ → Option ParsedCommand
unfolding parse_args tokenize
parse line = parse_trimmed (trim line)
