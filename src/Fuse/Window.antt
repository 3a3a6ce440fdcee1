-- ===== src/Fuse/Window.antt =====
-- llm-fuse.ts, the rolling hour: the window against the history of counted calls.
use phus.Prelude.{
  ℕ, ◌+◌, ◌≤◌, ◌≡◌, refl, sym, ap, ◌∙◌, inl, inr, Bool, List, [], ◌∷◌, ◌++◌, arith, Bool-cases,
  length, filter, filter-append, All, All-append, All-filter,
}
use phus.Fuse.{LlmFuse, is_recent, hour_ms, shift_stale, count_call}

-- Times in the order of the clock, the last at most `now`.
abbrev pub Ascending : ℕ → List ℕ → Type 0
Ascending now [] = Unit
Ascending now (t ∷ ts) = (t ≤ now) × All (λ u. t ≤ u) ts × Ascending now ts

pub Ascending-snoc :
    (then' now : ℕ) (ts : List ℕ)
    → Ascending then' ts
    → then' ≤ now
    → Ascending now (ts ++ now ∷ [])
Ascending-snoc then' now [] h le = (omega arith, tt, tt)
Ascending-snoc then' now (t ∷ ts) (b, a, h) le = (
  omega arith,
  All-append (λ u. t ≤ u) ts (now ∷ []) a (omega arith, tt),
  Ascending-snoc then' now ts h le,
)

-- In order, whatever follows a recent call is recent.
filter-eq_of_recent :
    (now t : ℕ) (ts : List ℕ)
    → All (λ u. t ≤ u) ts
    → now ≤ t + hour_ms
    → filter (is_recent now) ts ≡ ts
filter-eq_of_recent now t [] a r = refl
filter-eq_of_recent now t (u ∷ us) (b, a) r = ground (arith, filter-eq_of_recent now t us a r)

shift_stale-eq-filter :
    (now last : ℕ) (ts : List ℕ)
    → Ascending last ts
    → shift_stale now ts ≡ filter (is_recent now) ts
unfolding shift_stale
shift_stale-eq-filter now last [] h = refl
shift_stale-eq-filter now last (t ∷ ts) (b, a, h) =
    ground (arith, shift_stale-eq-filter now last ts h, filter-eq_of_recent now t ts a)

-- A call that is recent later is recent now.
pub filter-filter_recent :
    (then' now : ℕ) (ts : List ℕ)
    → then' ≤ now
    → filter (is_recent now) (filter (is_recent then') ts) ≡ filter (is_recent now) ts
filter-filter_recent then' now [] h = refl
filter-filter_recent then' now (t ∷ ts) h = ground (arith, filter-filter_recent then' now ts h)

Ascending-filter :
    (now : ℕ) (p : ℕ → Bool) (ts : List ℕ) → Ascending now ts → Ascending now (filter p ts)
Ascending-filter now p [] h = tt
Ascending-filter now p (t ∷ ts) (b, a, h) = elim (Bool-cases (p t)) [
  | inl e ↦ rw e (b, All-filter (λ u. t ≤ u) p ts a, Ascending-filter now p ts h)
  | inr e ↦ rw e (Ascending-filter now p ts h)
]

-- Counting a call keeps the window equal to the recent part of the history.
pub count_call-window :
    (then' now : ℕ) (fuse : LlmFuse) (history : List ℕ)
    → Ascending then' history
    → then' ≤ now
    → fuse.hour_window ≡ filter (is_recent then') history
    → (count_call now fuse).hour_window ≡ filter (is_recent now) (history ++ now ∷ [])
unfolding count_call
count_call-window then' now fuse history h le e = rw e (
    shift_stale-eq-filter now now (filter (is_recent then') history ++ now ∷ []) (
      Ascending-snoc then' now (filter (is_recent then') history)
        (Ascending-filter then' (is_recent then') history h) le)
    ∙ filter-append (is_recent now) (filter (is_recent then') history) (now ∷ [])
    ∙ ap (λ ts. ts ++ filter (is_recent now) (now ∷ [])) (filter-filter_recent then' now history le)
    ∙ sym (filter-append (is_recent now) history (now ∷ [])))

-- Fewer calls are recent as time goes on.
pub length-filter_recent_mono :
    (then' now : ℕ) (ts : List ℕ)
    → then' ≤ now
    → length (filter (is_recent now) ts) ≤ length (filter (is_recent then') ts)
length-filter_recent_mono then' now [] h = omega arith
length-filter_recent_mono then' now (t ∷ ts) h =
    ground (arith, length-filter_recent_mono then' now ts h)
