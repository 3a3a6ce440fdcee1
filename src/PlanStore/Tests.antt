-- ===== src/PlanStore/Tests.antt =====
-- The plan store at concrete plans and attempts.
use phus.Prelude.{ℕ, String, ◌≡◌, refl, none, some, [], ◌∷◌, if◌then◌else◌, filter}
use text.Mathlib.Text.{◌==◌ as str_eq}
use phus.Prelude.Sort.{sort}
use phus.Prelude.Json.{
  Value, string, failure, array, object, element, no_elements, property, no_properties, reread,
  is_data,
}
use phus.Plan.{PlanStatus, paused, completed, StepStatus, Step, Plan}
use phus.PlanStore.{PlanStore, empty_store, save, load, delete, load_active_for_session}
use phus.PlanStore.Newest.{load-save, load-delete, IsNewestActive, load_active-IsNewestActive}
use phus.PlanStore.Validation.{
  improved, ValidationMetrics, run_completed, ValidationAttempt, ValidationTables, empty_tables,
  record_validation_attempt, get_validation_stats, of_draft,
}
use phus.PlanStore.Validation.Counts.{IsTallied, get_validation_stats-IsTallied}

abbrev plan : String → PlanStatus → ℕ → Plan
plan id status now = record {
  id = id;
  session_id = "s";
  goal = "g";
  status = status;
  steps = [];
  created_at = 0;
  updated_at = now;
  error = none;
}

abbrev done_step : Value → Step
done_step result = record {
  ref = 0;
  id = "a";
  index = 0;
  description = "a";
  expected_output = none;
  status = StepStatus.completed;
  retry_count = 0;
  tool = none;
  result = result;
  depends_on = [];
  phase = none;
  repair_context = none;
  subagent_session_id = none;
  subagent_label = none;
  error = none;
  output = some "out";
}

-- A plan with one step that has a result.
abbrev with_result : Value → Plan
with_result result = record (plan "p" completed 7) { steps = done_step result ∷ [] }

abbrev files_read : Value
files_read = object (property "files" (array (element (string "a.ts") no_elements)) no_properties)

abbrev two_plans : PlanStore
two_plans = save (plan "q" completed 9) (save (plan "p" paused 5) empty_store)

load-save_example :
    load (save (with_result files_read) two_plans) "p"
    ≡ (if str_eq "p" "p" then some (with_result files_read) else load two_plans "p")
unfolding is_data
load-save_example = load-save (with_result files_read) two_plans "p" (refl, tt)

-- An Error that the executor keeps as the result of a step is an object without fields after a save.
loses_the_error :
    load (save (with_result (failure "ENOENT")) two_plans) "p"
    ≡ some (with_result (object no_properties))
unfolding load save reread
loses_the_error = refl

load-delete_example :
    load (delete "p" two_plans) "q" ≡ (if str_eq "p" "q" then none else load two_plans "q")
load-delete_example = load-delete "p" two_plans "q"

skips_completed : load_active_for_session two_plans "s" ≡ some (plan "p" paused 5)
unfolding load_active_for_session save sort
skips_completed = refl

load_active-IsNewestActive_example :
    IsNewestActive "s" two_plans.plans (load_active_for_session two_plans "s")
load_active-IsNewestActive_example = load_active-IsNewestActive two_plans "s"

abbrev metrics : ValidationMetrics
metrics = record {
  step_count = 3;
  failures = 0;
  duration_ms = 10;
  status = run_completed;
  recorded_at = 1;
}

abbrev attempt : ℕ → ValidationAttempt
attempt now = record {
  draft_name = "d";
  outcome = improved;
  metrics = metrics;
  reason = "r";
  session_id = none;
  ts = now;
}

abbrev two_attempts : ValidationTables
two_attempts =
    record_validation_attempt (attempt 8) (record_validation_attempt (attempt 3) empty_tables)

-- The rows come newest first, so the time that is kept is the oldest.
last_improved_is_oldest : (get_validation_stats two_attempts "d").last_improved_at ≡ some 3
unfolding get_validation_stats record_validation_attempt sort
last_improved_is_oldest = refl

get_validation_stats-IsTallied_example :
    IsTallied
      (filter (of_draft "d") two_attempts.validation_attempts)
      (get_validation_stats two_attempts "d")
get_validation_stats-IsTallied_example = get_validation_stats-IsTallied two_attempts "d"
