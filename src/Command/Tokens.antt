-- ===== src/Command/Tokens.antt =====
-- parser.ts: what the tokenizer gives, and the name of a parsed command.
use phus.Prelude.{
  ℕ, ◌≡◌, refl, sym, ap, ◌∙◌, subst, ◌≢◌, inl, inr, Bool, true, false, not, ◌&&◌, some, eq_of_some,
  List, [], ◌∷◌, ◌++◌, append-nil, append_assoc, arith, ◌==◌, Bool-cases, Option-cases, All,
  All-append,
}
use phus.Command.{
  Scan, push_cur, scan_char, scan, new_scan, tokenize, ParsedCommand, parse_args, keyword_of, parse,
  parse_tokens, parse_body, parse_trimmed, trim,
}

abbrev pub NonEmpty : List ℕ → Type 0
NonEmpty s = s ≢ []

push_cur-NonEmpty :
    (out : List (List ℕ)) (cur : List ℕ) → All NonEmpty out → All NonEmpty (push_cur out cur)
unfolding push_cur
push_cur-NonEmpty out [] h = h
push_cur-NonEmpty out (c ∷ cur) h = All-append NonEmpty out ((c ∷ cur) ∷ []) h ((λ e. cc e), tt)

scan_char-NonEmpty : (c : ℕ) (st : Scan) → All NonEmpty st.out → All NonEmpty (scan_char c st).out
unfolding scan_char
scan_char-NonEmpty c st h = elim (Bool-cases ((c == 39) && not st.in_double)) [
  | inl t ↦ rw (scan_char, t) h
  | inr f ↦ elim (Bool-cases ((c == 34) && not st.in_single)) [
    | inl t ↦ rw (scan_char, f, t) h
    | inr g ↦ elim (Bool-cases ((c == 32) && (not st.in_single && not st.in_double))) [
      | inl t ↦ rw (scan_char, f, g, t) (push_cur-NonEmpty st.out st.cur h)
      | inr k ↦ rw (scan_char, f, g, k) h
    ]
  ]
]

scan-NonEmpty : (s : List ℕ) (st : Scan) → All NonEmpty st.out → All NonEmpty (scan s st).out
scan-NonEmpty [] st h = h
scan-NonEmpty (c ∷ s) st h = scan-NonEmpty s (scan_char c st) (scan_char-NonEmpty c st h)

-- No token is empty, whatever the quotes and spaces of the text.
pub tokenize-NonEmpty : (s : List ℕ) → All NonEmpty (tokenize s)
unfolding tokenize
tokenize-NonEmpty s =
    let end = scan s new_scan in push_cur-NonEmpty end.out end.cur (scan-NonEmpty s new_scan tt)

-- Neither a quote nor a space.
abbrev pub is_plain : ℕ → Bool
is_plain c = not (c == 39) && (not (c == 34) && not (c == 32))

abbrev pub IsWord : List ℕ → Type 0
IsWord w = NonEmpty w × All (λ c. is_plain c ≡ true) w

-- The words with a space between them.
abbrev pub join : List (List ℕ) → List ℕ
join [] = []
join (w ∷ []) = w
join (w ∷ v ∷ ws) = w ++ 32 ∷ join (v ∷ ws)

abbrev unquoted : List (List ℕ) → List ℕ → Scan
unquoted out cur = record { out = out; cur = cur; in_single = false; in_double = false }

scan-append : (xs ys : List ℕ) (st : Scan) → scan (xs ++ ys) st ≡ scan ys (scan xs st)
scan-append [] ys st = refl
scan-append (x ∷ xs) ys st = scan-append xs ys (scan_char x st)

scan_char-plain :
    (c : ℕ) (out : List (List ℕ)) (cur : List ℕ)
    → is_plain c ≡ true
    → scan_char c (unquoted out cur) ≡ unquoted out (cur ++ c ∷ [])
unfolding scan_char
scan_char-plain c out cur h = ground (arith, h)

scan-plain :
    (w : List ℕ) (out : List (List ℕ)) (cur : List ℕ)
    → All (λ c. is_plain c ≡ true) w
    → scan w (unquoted out cur) ≡ unquoted out (cur ++ w)
scan-plain [] out cur h = ap (unquoted out) (sym (append-nil cur))
scan-plain (c ∷ w) out cur (p, h) =
    ap (scan w) (scan_char-plain c out cur p)
    ∙ scan-plain w out (cur ++ c ∷ []) h
    ∙ ap (unquoted out) (append_assoc cur (c ∷ []) w)

push_cur-word : (out : List (List ℕ)) (w : List ℕ) → NonEmpty w → push_cur out w ≡ out ++ w ∷ []
unfolding push_cur
push_cur-word out [] h = absurd (h refl)
push_cur-word out (c ∷ w) h = refl

space :
    (out : List (List ℕ)) (w : List ℕ)
    → NonEmpty w
    → scan_char 32 (unquoted out w) ≡ unquoted (out ++ w ∷ []) []
unfolding scan_char push_cur
space out w ne = ap (λ o. unquoted o []) (push_cur-word out w ne)

scan-join :
    (w : List ℕ) (ws out : List (List ℕ))
    → All IsWord (w ∷ ws)
    → (let end = scan (join (w ∷ ws)) (unquoted out []) in push_cur end.out end.cur) ≡ out ++ w ∷ ws
scan-join w [] out ((ne, p), h) =
    ap (λ (e : Scan). push_cur e.out e.cur) (scan-plain w out [] p) ∙ push_cur-word out w ne
scan-join w (v ∷ ws) out ((ne, p), h) =
    ap (λ (e : Scan). push_cur e.out e.cur)
      (scan-append w (32 ∷ join (v ∷ ws)) (unquoted out [])
        ∙ ap (scan (32 ∷ join (v ∷ ws))) (scan-plain w out [] p)
        ∙ ap (scan (join (v ∷ ws))) (space out w ne))
    ∙ scan-join v ws (out ++ w ∷ []) h
    ∙ append_assoc out (w ∷ []) (v ∷ ws)

-- Words without quotes or spaces, joined by single spaces, are given back.
pub tokenize-join : (ws : List (List ℕ)) → All IsWord ws → tokenize (join ws) ≡ ws
unfolding tokenize push_cur
tokenize-join [] h = refl
tokenize-join (w ∷ ws) h = scan-join w ws [] h

parse_args-name :
    (toks : List (List ℕ)) (kwarg_done : Bool) (p : ParsedCommand)
    → (parse_args toks kwarg_done p).name ≡ p.name
unfolding parse_args
parse_args-name [] kwarg_done p = refl
parse_args-name (tok ∷ toks) kwarg_done p = elim (Option-cases (keyword_of kwarg_done tok)) [
  | inl e ↦ rw (parse_args, e) (parse_args-name toks true _)
  | inr (kv, e) ↦ rw (parse_args, e) (parse_args-name toks kwarg_done _)
]

tokens-name :
    (toks : List (List ℕ)) (p : ParsedCommand)
    → All NonEmpty toks
    → parse_tokens toks ≡ some p
    → NonEmpty p.name
tokens-name [] p h e = absurd (cc e)
tokens-name (name ∷ toks) p (ne, h) e =
    let z = eq_of_some e in
    subst NonEmpty (sym (parse_args-name toks false _) ∙ ap (λ (q : ParsedCommand). q.name) z) ne

body-name : (s : List ℕ) (p : ParsedCommand) → parse_body s ≡ some p → NonEmpty p.name
body-name [] p e = absurd (cc e)
body-name (c ∷ s) p e = tokens-name (tokenize (c ∷ s)) p (tokenize-NonEmpty (c ∷ s)) e

trimmed-name : (s : List ℕ) (p : ParsedCommand) → parse_trimmed s ≡ some p → NonEmpty p.name
trimmed-name [] p e = absurd (cc e)
trimmed-name (c ∷ s) p e = elim (Bool-cases (c == 44)) [
  | inl t ↦ body-name (trim s) p (rw t at e)
  | inr f ↦ absurd (let z = (rw f at e) in cc z)
]

-- A command that is parsed has a name that is not empty.
parse-name : (line : List ℕ) (p : ParsedCommand) → parse line ≡ some p → p.name ≢ []
unfolding parse
parse-name line p e = trimmed-name (trim line) p e
