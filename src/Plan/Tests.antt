-- ===== src/Plan/Tests.antt =====
-- Runs of plans, and the theorems about them at concrete plans.
use phus.Prelude.{
  ℕ, ◌*◌, ◌≤◌, String, ◌≡◌, refl, Bool, true, false, none, some, List, [], ◌∷◌, map, arith, leb,
  ◌==◌, if◌then◌else◌, length, filter,
}
use text.Mathlib.Text.{◌==◌ as str_eq}
use phus.Fuse.{RobustnessConfig, default_robustness}
use phus.Prelude.Json.{Value, undefined, number}
use phus.Plan.{paused, edit, waiting, completed, Step}
use phus.Plan.Order.{sort_steps, compute_levels}
use phus.Plan.Order.Groups.{count_in, compute_levels-partition}
use phus.Plan.Executor.{
  proceed, retry, VerificationResult, StepWorld, StepOutcome, verified, replan_needed, no_result,
  execute_step,
}
use phus.Plan.Executor.Retries.{progress_of, IsSettled, execute_step-IsSettled, rerun-no_result}
use phus.Plan.Pass.{PassWorld, run_pass, start_pass}
use phus.Plan.Pass.Trace.{starts}
use phus.Plan.Pass.Batch.{IsSound}
use phus.Plan.Pass.Safety.{run_pass-IsSound}
use phus.Plan.Pass.Limits.{run_pass-starts}
use phus.Plan.Runner.{max_replan_attempts, RunWorld, run_plan}
use phus.Plan.Runner.Outcome.{IsRun, run_plan-IsRun, run_plan-starts}

abbrev new_step : ℕ → String → List String → Step
new_step ref id depends_on = record {
  ref = ref;
  id = id;
  index = ref;
  description = id;
  expected_output = none;
  status = waiting;
  retry_count = 0;
  tool = some "bash";
  result = undefined;
  depends_on = depends_on;
  phase = some edit;
  repair_context = none;
  subagent_session_id = none;
  subagent_label = none;
  error = none;
  output = none;
}

-- "c" waits for "a" and "b".
abbrev three_steps : List Step
three_steps = new_step 0 "c" ("a" ∷ "b" ∷ []) ∷ new_step 1 "a" [] ∷ new_step 2 "b" [] ∷ []

sorts_dependencies_first : map (λ s. s.id) (sort_steps three_steps) ≡ "a" ∷ "b" ∷ "c" ∷ []
unfolding sort_steps
sorts_dependencies_first = refl

groups_by_level :
    map (map (λ s. s.id)) (compute_levels (sort_steps three_steps))
    ≡ ("a" ∷ "b" ∷ []) ∷ ("c" ∷ []) ∷ []
unfolding sort_steps compute_levels
groups_by_level = refl

compute_levels-partition_example :
    count_in (λ s. s.ref == 1) (compute_levels three_steps)
    ≡ length (filter (λ s. s.ref == 1) three_steps)
compute_levels-partition_example = compute_levels-partition (λ s. s.ref == 1) three_steps

abbrev passes : VerificationResult
passes = record { is_ok = true; reason = "ok"; action = proceed }

abbrev try_again : VerificationResult
try_again = record { is_ok = false; reason = "tests fail"; action = retry }

abbrev is_good : Value → Bool
is_good (number n) = leb 2 n
is_good _ = false

-- Results are the number of the run; the third is good.
abbrev third_time : StepWorld
third_time = record {
  run_step = λ n s. number n;
  verify = λ s r. if is_good r then passes else try_again;
  output_of = λ r. "out";
  build_repair_context = λ phase s r v. v.reason;
}

retries_twice :
    ((execute_step third_time 3 (new_step 0 "a" [])).0.retry_count ≡ 2)
    × ((execute_step third_time 3 (new_step 0 "a" [])).0.result ≡ number 2)
unfolding execute_step
retries_twice = (refl, refl)

-- A tool that returns nothing, which the verifier lets pass: the step is complete and has the result,
-- and `executeStep` throws.
abbrev returns_nothing : StepWorld
returns_nothing = record third_time { run_step = λ n s. undefined; verify = λ s r. passes }

completes_and_throws :
    ((execute_step returns_nothing 3 (new_step 0 "a" [])).0.status ≡ completed)
    × ((execute_step returns_nothing 3 (new_step 0 "a" [])).1 ≡ no_result)
unfolding execute_step
completes_and_throws = (refl, refl)

execute_step-IsSettled_example :
    IsSettled third_time 3 (new_step 0 "a" []) (execute_step third_time 3 (new_step 0 "a" []))
execute_step-IsSettled_example = execute_step-IsSettled third_time 3 (new_step 0 "a" [])

-- Every step is done at once, but "b" asks for a new plan.
abbrev outcome_of : Step → StepOutcome
outcome_of s = if str_eq s.id "b" then replan_needed "no" else verified passes

abbrev two_a_pass : RobustnessConfig
two_a_pass = record default_robustness { plan_max_steps = 2 }

abbrev b_fails : PassWorld
b_fails = record {
  robustness = some two_a_pass;
  elapsed_ms = λ n. n;
  abort_requested = λ n. false;
  execute = λ n s. (progress_of s, outcome_of s);
}

ends_with_replan : (run_pass b_fails three_steps).0.replan_requested ≡ true
unfolding run_pass compute_levels sort_steps
ends_with_replan = refl

run_pass-IsSound_example : IsSound (start_pass three_steps) (run_pass b_fails three_steps)
run_pass-IsSound_example = run_pass-IsSound b_fails three_steps

run_pass-starts_example : starts (run_pass b_fails three_steps).1 ≤ 2
run_pass-starts_example = run_pass-starts b_fails two_a_pass refl (omega arith) three_steps

-- The planner gives the same plan again.
abbrev stubborn : RunWorld
stubborn = record { pass = λ attempt. b_fails; create_plan = λ attempt steps. some three_steps }

replans_twice :
    ((run_plan stubborn three_steps).passes ≡ 3) × ((run_plan stubborn three_steps).status ≡ paused)
unfolding run_plan run_pass compute_levels sort_steps
replans_twice = (refl, refl)

-- The limit of two steps holds for each pass, not for the run.
starts_more_than_the_limit : starts (run_plan stubborn three_steps).events ≡ 6
unfolding run_plan run_pass compute_levels sort_steps
starts_more_than_the_limit = refl

run_plan-IsRun_example : IsRun max_replan_attempts (run_plan stubborn three_steps)
run_plan-IsRun_example = run_plan-IsRun stubborn three_steps

run_plan-starts_example : starts (run_plan stubborn three_steps).events ≤ 3 * 2
run_plan-starts_example =
    run_plan-starts stubborn two_a_pass (λ attempt. refl) (omega arith) three_steps

abbrev never : StepWorld
never = record third_time { verify = λ s n. try_again }

rerun-no_result_example :
    (execute_step third_time 1 (execute_step never 1 (new_step 0 "a" [])).0).1 ≡ no_result
unfolding execute_step
rerun-no_result_example =
    rerun-no_result never third_time 1 (new_step 0 "a" []) try_again refl (λ e. cc e)
