-- ===== src/Plan/Pass.antt =====
-- plan-runner.ts, one pass of `runPlan` over the steps of a plan: the loop over levels, batches and
-- steps. What the executor, the clock and the user's abort do is the argument `PassWorld`. The steps
-- of a batch run at the same time, each changing its own object; they are taken in their order.
-- `store.save` and `emitStep` are recorded as events.
pub mod Trace
pub mod Batch
pub mod Ready
pub mod Safety
pub mod Limits
use phus.Prelude.{
  ℕ, zero, suc, ◌+◌, ◌-◌, String, Bool, true, false, not, ◌&&◌, ◌||◌, Option, none, some, List, [],
  ◌∷◌, ◌++◌, map, ltb, leb, ◌==◌, if◌then◌else◌, length, take, drop, any, filter,
}
use text.Mathlib.Text.{◌==◌ as str_eq}
use phus.Fuse.{RobustnessConfig}
use phus.Plan.{
  StepStatus, waiting, running, blocked, completed, failed, skipped, StepError, message,
  aborted_by_user, steps_executed, wall_clock, before_step, awaiting_resolution, dependency_failed,
  dependency_not_ready, Step,
}
use phus.Plan.Order.{has_id, sort_steps, compute_levels}
use phus.Plan.Executor.{
  VerificationStatus, proceed, VerificationResult, StepOutcome, verified, replan_needed, stopped,
  no_result, out_of_fuel,
}
use phus.Plan.Executor.Retries.{Progress, with_progress}

-- `refused` is a `plan_step_failed` of a step that was not started.
pub data PlanEvent : Type 0 where
  plan_step_started plan_step_completed plan_step_failed refused : Step → PlanEvent
  saved : List Step → PlanEvent

pub record PassWorld : Type 0 where
  -- `loadConfig().robustness`, or nothing where it throws.
  pub robustness : Option RobustnessConfig
  -- The time since the start of the pass, after so many executed steps.
  pub elapsed_ms : ℕ → ℕ
  -- Whether `abort()` has been called when so many steps have been executed.
  pub abort_requested : ℕ → Bool
  -- `executor.executeStep` for a step that starts after so many executed ones.
  pub execute : ℕ → Step → Progress × StepOutcome

-- The variables of the pass; `steps` are the step objects of the plan.
pub record Pass : Type 0 where
  pub steps : List Step
  pub completed : List String
  pub failed : List String
  pub replan_requested : Bool
  pub stopped_early : Bool
  pub executed_steps : ℕ

-- The object with this identity, as it stands now.
unfoldable pub get_step : List Step → Step → Step
get_step [] s = s
get_step (x ∷ steps) s = if x.ref == s.ref then x else get_step steps s

unfoldable pub set_step : Step → List Step → List Step
set_step s [] = []
set_step s (x ∷ steps) = if x.ref == s.ref then s ∷ steps else x ∷ set_step s steps

abbrev pub is_waiting : StepStatus → Bool
is_waiting waiting = true
is_waiting running = true
is_waiting _ = false

-- `if (s.status === "pending" || s.status === "running")` mark it skipped.
abbrev skip_waiting : StepError → Step → Step
skip_waiting reason s =
    if is_waiting s.status then record s { status = skipped; error = some reason } else s

unfoldable pub skip_all : StepError → List Step → List Step → List Step
unfolding get_step set_step
skip_all reason [] steps = steps
skip_all reason (s ∷ rest) steps =
    skip_all reason rest (set_step (skip_waiting reason (get_step steps s)) steps)

-- `budgetHit`
unfoldable pub budget_hit : Option RobustnessConfig → ℕ → ℕ → Option StepError
budget_hit none elapsed executed = none
budget_hit (some cfg) elapsed executed =
    if ltb 0 cfg.plan_max_steps && leb cfg.plan_max_steps executed
    then some (steps_executed cfg.plan_max_steps)
    else if ltb 0 cfg.plan_timeout_ms && ltb cfg.plan_timeout_ms elapsed
    then some (wall_clock cfg.plan_timeout_ms)
    else none

-- `budgetRemaining`
pub data Remaining : Type 0 where
  exceeded uncapped : Remaining
  remaining : ℕ → Remaining

unfoldable pub budget_remaining : Option RobustnessConfig → ℕ → Remaining
budget_remaining none executed = uncapped
budget_remaining (some cfg) executed =
    if ltb 0 cfg.plan_max_steps
    then if leb cfg.plan_max_steps executed
      then exceeded
      else remaining (cfg.plan_max_steps - executed)
    else uncapped

-- What a step of a level becomes before the level runs.
pub data Readiness : Type 0 where
  done : Readiness
  unresolved : Step → Readiness
  unmet : Step → Readiness
  ready : Step → Readiness

abbrev or_awaiting : Option StepError → StepError
or_awaiting none = awaiting_resolution
or_awaiting (some e) = e

abbrev reset_running : StepStatus → StepStatus
reset_running running = waiting
reset_running status = status

abbrev check_deps : List String → List String → Step → Readiness
check_deps done_ids failed_ids s =
    if any (has_id failed_ids) s.depends_on
    then unmet (record s { status = skipped; error = some dependency_failed })
    else if any (λ id. not (has_id done_ids id)) s.depends_on
    then unmet (record s { status = skipped; error = some dependency_not_ready })
    else ready s

abbrev readiness_when : StepStatus → List String → List String → Step → Readiness
readiness_when completed done_ids failed_ids s = done
readiness_when blocked done_ids failed_ids s =
    unresolved (record s { error = some (or_awaiting s.error) })
readiness_when status done_ids failed_ids s =
    check_deps done_ids failed_ids (record s { status = reset_running status; error = none })

unfoldable pub readiness : Pass → Step → Readiness
unfolding get_step
readiness p s = let now = get_step p.steps s in readiness_when now.status p.completed p.failed now

-- The loop that finds the ready steps of a level.
unfoldable pub prepare : List Step → Pass → Pass × List Step × List PlanEvent
unfolding readiness set_step
prepare [] p = (p, [], [])
prepare (s ∷ level) p = elim (readiness p s) [
  | done ↦ prepare level p
  | unresolved s' ↦
      let (p', steps, events) =
        prepare level (record p { steps = set_step s' p.steps; failed = s'.id ∷ p.failed }) in
      (p', steps, refused s' ∷ events)
  | unmet s' ↦
      let (p', steps, events) =
        prepare level (record p { steps = set_step s' p.steps; failed = s'.id ∷ p.failed }) in
      (p', steps, refused s' ∷ events)
  | ready s' ↦
      let (p', steps, events) = prepare level (record p { steps = set_step s' p.steps }) in
      (p', s' ∷ steps, events)
]

abbrev start_one : Step → Step
start_one s = record s { status = running }

-- The loop that marks a batch as running.
unfoldable pub start_batch : List Step → List Step → List Step × List PlanEvent
unfolding set_step
start_batch [] steps = (steps, [])
start_batch (s ∷ batch) steps =
    let (steps', events) = start_batch batch (set_step (start_one s) steps) in
    (steps', plan_step_started (start_one s) ∷ events)

-- `executeAndClassify` for a step, by the outcome of the executor.
abbrev is_proceed : VerificationStatus → Bool
is_proceed proceed = true
is_proceed _ = false

unfoldable pub classify : Step → StepOutcome → Pass → Pass × PlanEvent
unfolding set_step
classify s (verified v) p =
    let passed = record s { status = completed; error = none } in
    let refused = record s { status = failed; error = some (message v.reason) } in
    if is_proceed v.action
    then (
      record p { steps = set_step passed p.steps; completed = s.id ∷ p.completed },
      plan_step_completed passed,
    )
    else (
      record p { steps = set_step refused p.steps; failed = s.id ∷ p.failed },
      plan_step_failed refused,
    )
classify s (replan_needed reason) p =
    let refused = record s { status = failed; error = some (message reason) } in
    (
      record p {
        steps = set_step refused p.steps;
        failed = s.id ∷ p.failed;
        replan_requested = true;
      },
      plan_step_failed refused,
    )
classify s (stopped action reason) p =
    let refused = record s { status = failed; error = some (message reason) } in
    (
      record p { steps = set_step refused p.steps; failed = s.id ∷ p.failed },
      plan_step_failed refused,
    )
classify s no_result p =
    let refused = record s {
      status = failed;
      error = some (message "Cannot read properties of undefined (reading 'replace')");
    } in
    (
      record p { steps = set_step refused p.steps; failed = s.id ∷ p.failed },
      plan_step_failed refused,
    )
classify s out_of_fuel p = (p, plan_step_failed s)

module _ (w : PassWorld) where
  unfoldable pub run_batch : List Step → Pass → Pass × List PlanEvent
  unfolding classify
  run_batch [] p = (p, [])
  run_batch (s ∷ batch) p =
      let (progress, outcome) = w.execute p.executed_steps (start_one s) in
      let (p', event) =
        classify (with_progress (start_one s) progress) outcome
          (record p { executed_steps = p.executed_steps + 1 }) in
      let (p'', events) = run_batch batch p' in (p'', event ∷ events)

  -- How a batch is cut: its size, and whether the rest of the level is given up, with its reason.
  abbrev cut_batch : Remaining → List Step → ℕ → Pass → List Step × Pass
  cut_batch (remaining n) steps limit p =
      if ltb n (length (take 3 steps))
      then (
        take n steps,
        record p {
          steps = skip_all (steps_executed limit) (drop n steps) p.steps;
          stopped_early = true;
        },
      )
      else (take 3 steps, p)
  cut_batch _ steps limit p = (take 3 steps, p)

  abbrev max_steps_of : Option RobustnessConfig → ℕ
  max_steps_of none = 0
  max_steps_of (some cfg) = cfg.plan_max_steps

  -- One batch, from its start to the save behind it.
  unfoldable pub one_batch : List Step → Pass → Pass × List PlanEvent
  unfolding start_batch run_batch skip_all
  one_batch batch p =
      let (steps, starts) = start_batch batch p.steps in
      let (p', ends) = run_batch batch (record p { steps = steps }) in
      (p', starts ++ (saved steps ∷ (ends ++ saved p'.steps ∷ [])))

  -- The loop over the batches of a level; `i` of its steps have been dispatched, `steps` are left.
  unfoldable pub run_batches : ℕ → ℕ → List Step → Pass → Pass × List PlanEvent
  unfolding one_batch budget_remaining
  run_batches fuel i [] p = (p, [])
  run_batches zero i (s ∷ steps) p = (p, [])
  run_batches (suc fuel) i (s ∷ steps) p =
      if w.abort_requested p.executed_steps
      then (record p { stopped_early = true }, [])
      else elim (budget_remaining w.robustness p.executed_steps) [
        | exceeded ↦
            let skipped = skip_all (before_step (i + 1)) (s ∷ steps) p.steps in
            (record p { steps = skipped; stopped_early = true }, saved skipped ∷ [])
        | left ↦
            let (batch, cut) = cut_batch left (s ∷ steps) (max_steps_of w.robustness) p in
            let (p', events) = one_batch batch cut in
            let (p'', more) = run_batches fuel (i + 3) (drop 3 (s ∷ steps)) p' in
            if p'.replan_requested || p'.stopped_early then (p', events) else (p'', events ++ more)
      ]

  abbrev stop_reason : Bool → Option StepError → Option StepError
  stop_reason true budget = some aborted_by_user
  stop_reason false budget = budget

  -- The loop over the levels; `all_steps` are the sorted steps.
  unfoldable pub run_levels : List Step → List (List Step) → Pass → Pass × List PlanEvent
  unfolding run_batches prepare budget_hit skip_all
  run_levels all_steps [] p = (p, [])
  run_levels all_steps (level ∷ levels) p =
      if p.stopped_early
      then (p, [])
      else elim (stop_reason (w.abort_requested p.executed_steps)
          (budget_hit w.robustness (w.elapsed_ms p.executed_steps) p.executed_steps)) [
            | some reason ↦
                let skipped = skip_all reason all_steps p.steps in
                (record p { steps = skipped; stopped_early = true }, saved skipped ∷ [])
            | none ↦
                let (p', steps, refusals) = prepare level p in
                let (p'', events) = run_batches (length steps) 0 steps p' in
                let (end, more) = run_levels all_steps levels p'' in
                (end, refusals ++ (events ++ more))
          ]

abbrev pub is_completed : StepStatus → Bool
is_completed completed = true
is_completed _ = false

abbrev pub completed_ids : List Step → List String
completed_ids steps = map (λ s. s.id) (filter (λ s. is_completed s.status) steps)

abbrev pub start_pass : List Step → Pass
start_pass steps = record {
  steps = steps;
  completed = completed_ids (sort_steps steps);
  failed = [];
  replan_requested = false;
  stopped_early = false;
  executed_steps = 0;
}

-- One pass over a plan whose steps are `steps`.
unfoldable pub run_pass : PassWorld → List Step → Pass × List PlanEvent
unfolding run_levels
run_pass w steps =
    let sorted = sort_steps steps in
    let (p, events) = run_levels w sorted (compute_levels sorted) (start_pass steps) in
    (p, saved steps ∷ events)
