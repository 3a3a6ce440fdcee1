-- ===== src/Plan/Order/Groups.antt =====
-- plan-runner.ts: the levels of a plan hold its steps, each once.
use phus.Prelude.{
  ℕ, zero, suc, ◌+◌, ◌≤◌, ◌<◌, String, ◌≡◌, refl, sym, ap, ◌∙◌, inl, inr, Bool, true, false, List,
  [], ◌∷◌, arith, ◌==◌, Bool-cases, length, filter,
}
use text.Mathlib.Text.{◌==◌ as str_eq}
use phus.Plan.{Step}
use phus.Plan.Order.{get_level, level_map, level_in, max_level, group_from, compute_levels}

-- How many steps of the levels pass a test.
abbrev pub count_in : (Step → Bool) → List (List Step) → ℕ
count_in p [] = 0
count_in p (level ∷ levels) = length (filter p level) + count_in p levels

abbrev one_if : Bool → ℕ
one_if true = 1
one_if false = 0

count-cons :
    (p : Step → Bool) (s : Step) (steps : List Step)
    → length (filter p (s ∷ steps)) ≡ one_if (p s) + length (filter p steps)
count-cons p s steps = elim (Bool-cases (p s)) [
  | inl t ↦ ground (arith, t)
  | inr f ↦ ground (arith, f)
]

module _ (level : Step → ℕ) (p : Step → Bool) (s : Step) (steps : List Step) where
  group_from-early :
      (count lv : ℕ)
      → level s < lv
      → count_in p (group_from level count lv (s ∷ steps))
        ≡ count_in p (group_from level count lv steps)
  unfolding group_from
  group_from-early zero lv lt = refl
  group_from-early (suc count) lv lt = elim (Bool-cases (level s == lv)) [
    | inl t ↦ absurd (ground (arith, t))
    | inr f ↦ rw f (
        ap (λ n. length (filter p (filter (λ t. level t == lv) steps)) + n)
          (group_from-early count (suc lv) (omega arith)))
  ]

  group_from-counts :
      (count lv : ℕ)
      → lv ≤ level s
      → level s < lv + count
      → count_in p (group_from level count lv (s ∷ steps))
        ≡ one_if (p s) + count_in p (group_from level count lv steps)
  unfolding group_from
  group_from-counts zero lv le lt = absurd (omega arith)
  group_from-counts (suc count) lv le lt = elim (Bool-cases (level s == lv)) [
    | inl t ↦ rw t (
        omega (
          arith,
          count-cons p s (filter (λ t. level t == lv) steps),
          group_from-early count (suc lv) (ground (arith, t)),
        ))
    | inr f ↦
        rw f (omega (arith, group_from-counts count (suc lv) (ground (arith, f)) (omega arith)))
  ]

group_from-nil :
    (level : Step → ℕ) (p : Step → Bool) (count lv : ℕ)
    → count_in p (group_from level count lv []) ≡ 0
unfolding group_from
group_from-nil level p zero lv = refl
group_from-nil level p (suc count) lv = omega (arith, group_from-nil level p count (suc lv))

group_from-all :
    (level : Step → ℕ) (p : Step → Bool) (count : ℕ) (steps : List Step)
    → ((s : Step) → level s < count)
    → count_in p (group_from level count 0 steps) ≡ length (filter p steps)
group_from-all level p count [] lt = group_from-nil level p count 0
group_from-all level p count (s ∷ steps) lt =
    group_from-counts level p s steps count 0 (omega arith) (omega (arith, lt s))
    ∙ ap (λ n. one_if (p s) + n) (group_from-all level p count steps lt)
    ∙ sym (count-cons p s steps)

level_in-max : (levels : List (String × ℕ)) (s : Step) → level_in levels s ≤ max_level levels
unfolding level_in max_level get_level
level_in-max [] s = omega arith
level_in-max ((id, level) ∷ levels) s = elim (Bool-cases (str_eq id s.id)) [
  | inl t ↦ rw (get_level, t) (omega arith)
  | inr f ↦ rw (get_level, f) (omega (arith, level_in-max levels s))
]

-- The levels hold the steps, each once: as many steps of the levels pass a test as of the list.
pub compute_levels-partition :
    (p : Step → Bool) (steps : List Step)
    → count_in p (compute_levels steps) ≡ length (filter p steps)
unfolding compute_levels
compute_levels-partition p steps =
    let levels = level_map steps in
    group_from-all (level_in levels) p (suc (max_level levels)) steps
      (λ s. omega (arith, level_in-max levels s))
