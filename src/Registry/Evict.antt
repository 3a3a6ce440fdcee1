-- ===== src/Registry/Evict.antt =====
-- session-runtime-registry.ts: what `evictIfNeeded` takes away, and what it leaves.
use phus.Prelude.{
  ℕ, zero, suc, ◌≤◌, ◌<◌, String, ◌≡◌, refl, ap, ◌∙◌, subst, ◌⊎◌, inl, inr, Bool, true, false, not,
  Option, none, some, List, [], ◌∷◌, ◌++◌, arith, eq_refl, ltb, not_ltb→le, Bool-cases, length,
  filter, length-filter-le, All, All-filter,
}
use phus.Prelude.Sort.{sort, first?, IsWeakOrder, IsFirstLeast, first-sort}
use phus.Registry.{
  RuntimeEntry, SessionRuntimeRegistry, has_session, older, is_evictable, candidates, dispose_entry,
  evict_loop, evict_if_needed,
}

older-IsWeakOrder : IsWeakOrder older
older-IsWeakOrder = record {
  trans = λ a b c h k. ground arith;
  negatively = λ a b c h k. ground arith;
}

-- A session has one entry.
abbrev pub IsKeyed : List RuntimeEntry → Type 0
IsKeyed entries = All (λ e. All (λ x. has_session e.session_id x ≡ true → x ≡ e) entries) entries

All-member :
    (P : RuntimeEntry → Type 0) (e : RuntimeEntry) (before after : List RuntimeEntry)
    → All P (before ++ e ∷ after)
    → P e
All-member P e [] after (p, h) = p
All-member P e (x ∷ before) after (p, h) = All-member P e before after h

All-map :
    (P Q : RuntimeEntry → Type 0) (xs : List RuntimeEntry)
    → ((x : RuntimeEntry) → P x → Q x)
    → All P xs
    → All Q xs
All-map P Q [] f h = tt
All-map P Q (x ∷ xs) f (p, h) = (f x p, All-map P Q xs f h)

IsKeyed-filter :
    (p : RuntimeEntry → Bool) (entries : List RuntimeEntry)
    → IsKeyed entries
    → IsKeyed (filter p entries)
IsKeyed-filter p entries h =
    All-map _ _ (filter p entries) (λ e. All-filter _ p entries) (All-filter _ p entries h)

filter-All :
    (p : RuntimeEntry → Bool) (xs : List RuntimeEntry) → All (λ x. p x ≡ true) (filter p xs)
filter-All p [] = tt
filter-All p (x ∷ xs) = elim (Bool-cases (p x)) [
  | inl t ↦ rw t (t, filter-All p xs)
  | inr f ↦ rw f (filter-All p xs)
]

-- Taking away what is not kept anyway.
filter-filter :
    (q keep : RuntimeEntry → Bool) (xs : List RuntimeEntry)
    → All (λ x. q x ≡ true → keep x ≡ false) xs
    → filter keep (filter (λ x. not (q x)) xs) ≡ filter keep xs
filter-filter q keep [] h = refl
filter-filter q keep (x ∷ xs) (p, h) = elim (Bool-cases (q x)) [
  | inl t ↦ let f = p t in ground (arith, t, f, filter-filter q keep xs h)
  | inr f ↦ ground (arith, f, filter-filter q keep xs h)
]

none_or_fewer :
    (q : RuntimeEntry → Bool) (xs : List RuntimeEntry)
    → All (λ x. q x ≡ false) xs ⊎ (length (filter (λ x. not (q x)) xs) < length xs)
none_or_fewer q [] = inl tt
none_or_fewer q (x ∷ xs) = elim (Bool-cases (q x)) [
  | inl t ↦ inr (rw t (omega (arith, length-filter-le (λ y. not (q y)) xs)))
  | inr f ↦ elim (none_or_fewer q xs) [
    | inl h ↦ inl (f, h)
    | inr lt ↦ inr (rw f (omega (arith, lt)))
  ]
]

-- How a turn of the loop finds its entry.
Candidate-cases :
    (protected : Option String) (r : SessionRuntimeRegistry)
    → (candidates protected r ≡ []) × (first? (sort older (candidates protected r)) ≡ none)
      ⊎ ((e : RuntimeEntry) × (first? (sort older (candidates protected r)) ≡ some e)
          × IsFirstLeast older e (candidates protected r))
unfolding sort
Candidate-cases protected r = by_list (candidates protected r)
  where
    by_list :
        (cs : List RuntimeEntry)
        → (cs ≡ []) × (first? (sort older cs) ≡ none)
          ⊎ ((e : RuntimeEntry) × (first? (sort older cs) ≡ some e) × IsFirstLeast older e cs)
    by_list [] = inl (refl, refl)
    by_list (c ∷ cs) = inr (first-sort older older-IsWeakOrder c cs)

candidate-member :
    (protected : Option String) (r : SessionRuntimeRegistry) (e : RuntimeEntry)
    → IsFirstLeast older e (candidates protected r)
    → (P : RuntimeEntry → Type 0) → All P (candidates protected r)
    → P e
candidate-member protected r e f P h = All-member P e f.before f.after (subst (All P) f.splits h)

-- What eviction leaves: at most the limit of entries or none that it may take; and the entries that
-- it may not take, which are those of the protected session, of the selected one and the busy ones,
-- are all still there, in order.
pub record IsEvicted (protected : Option String) (r after : SessionRuntimeRegistry) : Type 0 where
  pub same_limit : after.max_runtimes ≡ r.max_runtimes
  pub same_selected : after.selected_session_id ≡ r.selected_session_id
  pub fits : (length after.entries ≤ r.max_runtimes) ⊎ (candidates protected after ≡ [])
  pub kept :
      filter (λ e. not (is_evictable protected r.selected_session_id e)) after.entries
      ≡ filter (λ e. not (is_evictable protected r.selected_session_id e)) r.entries
  pub keyed : IsKeyed after.entries

stops-IsEvicted :
    (protected : Option String) (r : SessionRuntimeRegistry)
    → IsKeyed r.entries
    → (length r.entries ≤ r.max_runtimes) ⊎ (candidates protected r ≡ [])
    → IsEvicted protected r r
stops-IsEvicted protected r keyed fits = record {
  same_limit = refl;
  same_selected = refl;
  fits = fits;
  kept = refl;
  keyed = keyed;
}

-- An entry that is disposed of and the state without it.
module _ (protected : Option String) (r : SessionRuntimeRegistry) (e : RuntimeEntry)
    (f : IsFirstLeast older e (candidates protected r)) where
  abbrev rest : SessionRuntimeRegistry
  rest = (dispose_entry e.session_id r).0

  rest-entries : rest.entries ≡ filter (λ x. not (has_session e.session_id x)) r.entries
  unfolding dispose_entry
  rest-entries = refl

  evictable : is_evictable protected r.selected_session_id e ≡ true
  evictable =
      candidate-member protected r e f _
        (filter-All (is_evictable protected r.selected_session_id) r.entries)

  of_entries : (P : RuntimeEntry → Type 0) → All P r.entries → P e
  of_entries P h =
      candidate-member protected r e f P
        (All-filter P (is_evictable protected r.selected_session_id) r.entries h)

  rest-length : length rest.entries < length r.entries
  unfolding dispose_entry
  rest-length = elim (none_or_fewer (has_session e.session_id) r.entries) [
    | inl h ↦ absurd (let d = of_entries _ h in cc (d, eq_refl e.session_id))
    | inr lt ↦ lt
  ]

  rest-IsEvicted :
      (after : SessionRuntimeRegistry)
      → IsKeyed r.entries
      → IsEvicted protected rest after
      → IsEvicted protected r after
  unfolding dispose_entry
  rest-IsEvicted after keyed i = record {
    same_limit = i.same_limit;
    same_selected = i.same_selected;
    fits = i.fits;
    kept =
        i.kept
        ∙ filter-filter (has_session e.session_id) _ r.entries (
            All-map _ _ r.entries
              (λ x same t.
                ap (λ y. not (is_evictable protected r.selected_session_id y)) (same t)
                ∙ ap not evictable)
              (of_entries _ keyed));
    keyed = i.keyed;
  }

module _ (has_messages : String → Bool) where
  evict_loop-IsEvicted :
      (fuel : ℕ) (protected : Option String) (r : SessionRuntimeRegistry)
      → IsKeyed r.entries
      → length r.entries ≤ fuel
      → IsEvicted protected r (evict_loop has_messages fuel protected r).0
  unfolding evict_loop dispose_entry
  evict_loop-IsEvicted zero protected r keyed le =
      stops-IsEvicted protected r keyed (inl (omega arith))
  evict_loop-IsEvicted (suc fuel) protected r keyed le =
      elim (Bool-cases (ltb r.max_runtimes (length r.entries))) [
        | inr f ↦
            rw (evict_loop, f)
              (stops-IsEvicted protected r keyed
                (inl (not_ltb→le r.max_runtimes (length r.entries) f)))
        | inl t ↦ elim (Candidate-cases protected r) [
          | inl (none_left, unfound) ↦
              rw (evict_loop, t, unfound) (stops-IsEvicted protected r keyed (inr none_left))
          | inr (e, found, f) ↦
              rw (evict_loop, t, found)
                (rest-IsEvicted protected r e f _ keyed (
                  evict_loop-IsEvicted fuel protected (rest protected r e f)
                    (IsKeyed-filter (λ x. not (has_session e.session_id x)) r.entries keyed)
                    (omega (arith, rest-length protected r e f))))
        ]
      ]

  -- evictIfNeeded, of a registry with one entry for each session, ends with at most `maxRuntimes`
  -- entries or with none that it may take; it takes no entry of the protected session, of the
  -- selected one, or with work pending, and keeps the order of those.
  pub evict_if_needed-IsEvicted :
      (protected : Option String) (r : SessionRuntimeRegistry)
      → IsKeyed r.entries
      → IsEvicted protected r (evict_if_needed has_messages protected r).0
  unfolding evict_if_needed
  evict_if_needed-IsEvicted protected r keyed =
      evict_loop-IsEvicted (length r.entries) protected r keyed (omega arith)
