-- ===== src/Plan/Executor.antt =====
-- packages/runtime/src/core/runtime/executor/index.ts: `executeStep`, one step run until the verifier
-- lets it pass, with retries. A tool or a sub-agent, the verifier and the texts that are built from
-- results are the argument `StepWorld`. A result of `undefined`, or a function, has no text, and
-- `shorten` throws.
pub mod Retries
use phus.Prelude.{
  ℕ, zero, suc, ◌+◌, ◌-◌, max, String, Bool, true, false, Option, none, some, ◌++◌, leb,
  if◌then◌else◌,
}
use phus.Prelude.Json.{Value, undefined, function}
use phus.Plan.{PlanPhase, inspect, edit, test, repair, StepStatus, running, completed, failed, Step}

pub data VerificationStatus : Type 0 where
  proceed retry replan escalate abort : VerificationStatus

pub record VerificationResult : Type 0 where
  pub is_ok : Bool
  pub reason : String
  pub action : VerificationStatus

pub record StepWorld : Type 0 where
  -- What `runStep` returns or throws at the n-th run of the step.
  pub run_step : ℕ → Step → Value
  pub verify : Step → Value → VerificationResult
  -- `shorten(stringifyResult(result))`, where the result has a text
  pub output_of : Value → String
  -- `buildRepairContext(originalPhase, step, lastResult, verification)`
  pub build_repair_context : PlanPhase → Step → Value → VerificationResult → String

-- How `executeStep` ends: it returns a verification, or throws.
pub data StepOutcome : Type 0 where
  verified : VerificationResult → StepOutcome
  replan_needed : String → StepOutcome
  stopped : VerificationStatus → String → StepOutcome
  -- It throws the TypeError of `shorten(undefined)`: the result has no text.
  no_result : StepOutcome
  out_of_fuel : StepOutcome

abbrev pub default_max_retries : ℕ
default_max_retries = 3

abbrev max_retries_exceeded : VerificationResult
max_retries_exceeded = record { is_ok = false; reason = "max retries exceeded"; action = abort }

abbrev last_or : Option VerificationResult → VerificationResult
last_or none = max_retries_exceeded
last_or (some v) = v

abbrev phase_or_edit : Option PlanPhase → PlanPhase
phase_or_edit none = edit
phase_or_edit (some phase) = phase

module _ (w : StepWorld) where
  open w use {run_step, verify, output_of, build_repair_context}

  -- Whether `stringifyResult` gives a text: JSON.stringify gives `undefined` for these two.
  abbrev pub has_text : Value → Bool
  has_text undefined = false
  has_text function = false
  has_text result = true

  abbrev pub with_output : Value → Step → Step
  with_output result step = record step { output = some (output_of result) }

  -- `step.output = shorten(stringifyResult(lastResult))` and what follows, for a step that is changed
  -- before the assignment.
  abbrev pub or_type_error : Value → Step → Step → StepOutcome → Step × StepOutcome
  or_type_error result changed step outcome =
      if has_text result then (step, outcome) else (changed, no_result)

  -- What a round does after the verifier's verdict, when it ends the loop.
  abbrev pub settle_step :
      Step → Value → VerificationResult → VerificationStatus → Step × StepOutcome
  settle_step step result v proceed =
      let done = record step { status = completed; result = result } in
      or_type_error result done (record (with_output result done) { repair_context = none })
        (verified v)
  settle_step step result v replan = (step, replan_needed v.reason)
  settle_step step result v action = (step, stopped action v.reason)

  abbrev pub is_retry : VerificationStatus → Bool
  is_retry retry = true
  is_retry _ = false

  -- `step.retryCount++` and the phase, before the output is written.
  abbrev pub count_retry : Step → Step
  count_retry step = record step { retry_count = step.retry_count + 1; phase = some repair }

  -- All that a retry changes. The context is built from the step as it then stands.
  abbrev pub prepare_retry : Step → Value → VerificationResult → Step
  prepare_retry step result v =
      let changed = with_output result (count_retry step) in
      record changed {
        repair_context = some (build_repair_context (phase_or_edit step.phase) changed result v);
      }

  -- What follows the loop.
  abbrev pub fail_step : Value → Option VerificationResult → Step → Step × StepOutcome
  fail_step last verification step =
      let ended = record step { status = failed; result = last } in
      or_type_error last ended (with_output last ended) (verified (last_or verification))

  -- The loop, after `n` runs, with `lastResult` and the verification of the last of them.
  unfoldable pub step_loop :
      ℕ → ℕ → ℕ → Value → Option VerificationResult → Step → Step × StepOutcome
  step_loop zero limit n last verification step = (step, out_of_fuel)
  step_loop (suc fuel) limit n last verification step =
      let started = record step { status = running } in
      let result = run_step n started in
      let v = verify started result in
      let again = step_loop fuel limit (suc n) result (some v) (prepare_retry started result v) in
      if leb step.retry_count limit
      then if is_retry v.action
        then if has_text result then again else (count_retry started, no_result)
        else settle_step started result v v.action
      else fail_step last verification step

  -- A retry raises the count, so the loop has at most this many rounds.
  unfoldable pub execute_step : ℕ → Step → Step × StepOutcome
  unfolding step_loop
  execute_step max_retries step =
      step_loop (suc (max_retries + 1 - step.retry_count)) max_retries 0 undefined none step
