-- ===== src/Plan/Runner.antt =====
-- plan-runner.ts: `runPlan`, the passes of a plan and what follows them, and how a plan is resumed.
-- The planner, the store and what each pass meets are arguments. The hook `plan_completed` and the
-- evolution engine, which cannot change the plan, are the last part of a `Run`.
pub mod Outcome
use phus.Prelude.{
  ℕ, zero, suc, ◌+◌, ◌⊎◌, inl, inr, Bool, true, false, not, ◌&&◌, Option, none, some, List, [], ◌∷◌,
  ◌++◌, if◌then◌else◌,
}
use phus.Plan.{
  PlanStatus, pending, paused, StepStatus, waiting, running, blocked, completed, failed, skipped,
  StepError, Step, Plan,
}
use phus.Plan.Pass.{PassWorld, Pass, PlanEvent, run_pass, is_completed}

-- `PlanRunner.MAX_REPLAN_ATTEMPTS`
abbrev pub max_replan_attempts : ℕ
max_replan_attempts = 2

-- `replan exhausted after …`, with the error of the last failed step.
pub data PlanError : Type 0 where
  replan_exhausted : Option StepError → PlanError

pub record RunWorld : Type 0 where
  -- What the pass of each attempt meets.
  pub pass : ℕ → PassWorld
  -- `planner.createPlan` for the replan after an attempt, given the steps of the plan; `none`: it throws.
  pub create_plan : ℕ → List Step → Option (List Step)

pub record Run : Type 0 where
  pub status : PlanStatus
  pub steps : List Step
  -- The error that this run sets.
  pub error : Option PlanError
  -- How many passes ran, and their events, in order.
  pub passes : ℕ
  pub events : List PlanEvent
  -- Whether `plan_completed` was announced.
  pub announced : Bool

is_failed : StepStatus → Bool
is_failed failed = true
is_failed _ = false

-- `plan.steps.find((s) => s.status === "failed")?.error`
unfoldable pub last_failure : List Step → Option StepError
unfolding is_failed
last_failure [] = none
last_failure (s ∷ steps) = if is_failed s.status then s.error else last_failure steps

-- `plan.steps.every((s) => s.status === "completed")`
unfoldable pub all_completed : List Step → Bool
all_completed [] = true
all_completed (s ∷ steps) = is_completed s.status && all_completed steps

abbrev pub final_status : Pass → PlanStatus
final_status p =
    if p.stopped_early
    then paused
    else if p.replan_requested
    then paused
    else if all_completed p.steps
    then completed
    else failed

-- The terminal state after a pass that is not replanned.
unfoldable pub settle : Pass → List PlanEvent → Run
unfolding last_failure all_completed
settle p events = record {
  status = final_status p;
  steps = p.steps;
  error = if p.replan_requested then some (replan_exhausted (last_failure p.steps)) else none;
  passes = 1;
  events = events;
  announced = not p.stopped_early;
}

-- The planner failed.
abbrev pub give_up : Pass → List PlanEvent → Run
give_up p events = record {
  status = paused;
  steps = p.steps;
  error = none;
  passes = 1;
  events = events;
  announced = false;
}

abbrev pub after_pass : List PlanEvent → Run → Run
after_pass events run = record run { passes = suc run.passes; events = events ++ run.events }

-- The loop of `runPlan` from an attempt on, with `left` attempts after it.
unfoldable pub run_attempts : RunWorld → ℕ → ℕ → List Step → Run
unfolding settle
run_attempts w zero attempt steps =
    let (p, events) = run_pass (w.pass attempt) steps in settle p events
run_attempts w (suc left) attempt steps =
    let (p, events) = run_pass (w.pass attempt) steps in
    let retry =
      λ (steps' : List Step). after_pass events (run_attempts w left (suc attempt) steps') in
    if p.replan_requested
    then elim (w.create_plan attempt p.steps) [
      | none ↦ give_up p events
      | some steps' ↦ retry steps'
    ]
    else settle p events

unfoldable pub run_plan : RunWorld → List Step → Run
unfolding run_attempts
run_plan w steps = run_attempts w max_replan_attempts 0 steps

-- `resumePlan`
pub data ResumeError : Type 0 where
  not_found already_completed : ResumeError

abbrev is_completed_plan : PlanStatus → Bool
is_completed_plan completed = true
is_completed_plan _ = false

unfoldable pub resume_plan : RunWorld → Option Plan → ResumeError ⊎ Run
unfolding run_plan
resume_plan w none = inl not_found
resume_plan w (some plan) =
    if is_completed_plan plan.status then inl already_completed else inr (run_plan w plan.steps)
