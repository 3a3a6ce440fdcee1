-- ===== src/Plan/Order.antt =====
-- plan-runner.ts: `sortSteps` and `computeLevels`, the order in which a plan's steps run. The
-- recursion of both is bounded by the number of steps, which is their fuel: a call that goes deeper
-- meets a step that is on the stack.
pub mod Groups
use phus.Prelude.{
  ℕ, zero, suc, ◌+◌, max, String, Bool, false, ◌||◌, Option, none, some, List, [], ◌∷◌, ◌++◌, ◌==◌,
  if◌then◌else◌, length, filter,
}
use text.Mathlib.Text.{◌==◌ as str_eq}
use phus.Plan.{Step}

abbrev pub has_id : List String → String → Bool
has_id [] id = false
has_id (x ∷ xs) id = str_eq x id || has_id xs id

-- `new Map(steps.map((s) => [s.id, s])).get(id)`: the last step of that id.
unfoldable pub find_step : List Step → String → Option Step
find_step [] id = none
find_step (s ∷ steps) id = elim (find_step steps id) [
  | some later ↦ some later
  | none ↦ if str_eq s.id id then some s else none
]

-- The variables of `sortSteps`.
pub record Sorting : Type 0 where
  pub visited : List String
  pub stack : List String
  pub result : List Step

visit_deps : (Step → Sorting → Sorting) → List Step → List String → Sorting → Sorting
visit_deps visit steps [] st = st
visit_deps visit steps (id ∷ ids) st = elim (find_step steps id) [
  | none ↦ visit_deps visit steps ids st
  | some dep ↦ visit_deps visit steps ids (visit dep st)
]

visit_step : ℕ → List Step → Step → Sorting → Sorting
visit_step zero steps step st = st
visit_step (suc fuel) steps step st =
    let entered = record st { stack = step.id ∷ st.stack } in
    let after = visit_deps (visit_step fuel steps) steps step.depends_on entered in
    if has_id st.visited step.id
    then st
    else if has_id st.stack step.id
    then st
    else record after { visited = step.id ∷ after.visited; result = after.result ++ step ∷ [] }

-- Each top-level call has a stack of its own.
visit_all : List Step → List Step → Sorting → Sorting
visit_all steps [] st = st
visit_all steps (s ∷ rest) st =
    visit_all steps rest (visit_step (suc (length steps)) steps s (record st { stack = [] }))

unfoldable pub sort_steps : List Step → List Step
unfolding visit_all visit_step visit_deps find_step
sort_steps steps = (visit_all steps steps (record { visited = []; stack = []; result = [] })).result

-- The variables of `computeLevels`; `level_of` has the newest entry first, and each id once.
pub record Levelling : Type 0 where
  pub level_of : List (String × ℕ)
  pub visiting : List String
  pub cycles : List String

unfoldable pub get_level : List (String × ℕ) → String → Option ℕ
get_level [] id = none
get_level ((x, level) ∷ levels) id = if str_eq x id then some level else get_level levels id

remove_id : List String → String → List String
remove_id [] id = []
remove_id (x ∷ xs) id = let rest = remove_id xs id in if str_eq x id then rest else x ∷ rest

level_deps :
    (Step → Levelling → Levelling × ℕ) → List Step → List String → ℕ → Levelling → Levelling × ℕ
level_deps compute steps [] best st = (st, best)
level_deps compute steps (id ∷ ids) best st = elim (find_step steps id) [
  | none ↦ level_deps compute steps ids best st
  | some dep ↦
      let (st', level) = compute dep st in level_deps compute steps ids (max best (level + 1)) st'
]

compute_level : ℕ → List Step → Step → Levelling → Levelling × ℕ
compute_level zero steps step st = (st, 0)
compute_level (suc fuel) steps step st =
    let entered = record st { visiting = step.id ∷ st.visiting } in
    let (after, best) = level_deps (compute_level fuel steps) steps step.depends_on 0 entered in
    elim (get_level st.level_of step.id) [
      | some level ↦ (st, level)
      | none ↦
          if has_id st.cycles step.id
          then (st, 0)
          else if has_id st.visiting step.id
          then (record st { cycles = step.id ∷ st.cycles }, 0)
          else (
            record after {
              visiting = remove_id after.visiting step.id;
              level_of = (step.id, best) ∷ after.level_of;
            },
            best,
          )
    ]

compute_all : List Step → List Step → Levelling → Levelling
compute_all steps [] st = st
compute_all steps (s ∷ rest) st =
    compute_all steps rest (compute_level (suc (length steps)) steps s st).0

unfoldable pub level_map : List Step → List (String × ℕ)
unfolding compute_all compute_level level_deps get_level remove_id find_step
level_map steps =
    (compute_all steps steps (record { level_of = []; visiting = []; cycles = [] })).level_of

-- `levelOf.get(step.id) ?? 0`
abbrev or_zero : Option ℕ → ℕ
or_zero none = 0
or_zero (some level) = level

unfoldable pub level_in : List (String × ℕ) → Step → ℕ
level_in levels step = or_zero (get_level levels step.id)

unfoldable pub max_level : List (String × ℕ) → ℕ
max_level [] = 0
max_level ((id, level) ∷ levels) = max level (max_level levels)

-- `levels[lv].push(step)` for each step: the groups from level `lv` on, `count` of them.
unfoldable pub group_from : (Step → ℕ) → ℕ → ℕ → List Step → List (List Step)
group_from level zero lv steps = []
group_from level (suc count) lv steps =
    filter (λ s. level s == lv) steps ∷ group_from level count (suc lv) steps

unfoldable pub compute_levels : List Step → List (List Step)
unfolding level_map level_in max_level group_from get_level
compute_levels steps =
    let levels = level_map steps in group_from (level_in levels) (suc (max_level levels)) 0 steps
