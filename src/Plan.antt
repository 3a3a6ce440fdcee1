-- ===== src/Plan.antt =====
-- Plans: packages/core/src/session/plan-store.ts for the data, and the runtime's
-- core/runtime/plan/plan-runner.ts and core/runtime/executor in the modules below. A step object is
-- shared between the plan and the lists that the runner makes, so it carries its identity, `ref`.
-- A step's result is `undefined` where the source has none; no `dependsOn` is an empty list.
pub mod Order
pub mod Executor
pub mod Pass
pub mod Runner
mod Tests
use phus.Prelude.{ℕ, String, Option, List}
use phus.Prelude.Json.{Value}

pub data PlanStatus : Type 0 where
  pending running paused completed failed : PlanStatus

pub data PlanPhase : Type 0 where
  inspect edit test repair : PlanPhase

pub data StepStatus : Type 0 where
  waiting running blocked completed failed skipped : StepStatus

-- The texts that the runner gives as a step's `error`; `message` is any other.
pub data StepError : Type 0 where
  message : String → StepError
  aborted_by_user : StepError
  steps_executed : ℕ → StepError
  wall_clock : ℕ → StepError
  before_step : ℕ → StepError
  awaiting_resolution dependency_failed dependency_not_ready : StepError

pub record Step : Type 0 where
  pub ref : ℕ
  pub id : String
  pub index : ℕ
  pub description : String
  pub expected_output : Option String
  pub status : StepStatus
  pub retry_count : ℕ
  pub tool : Option String
  pub result : Value
  pub depends_on : List String
  pub phase : Option PlanPhase
  pub repair_context : Option String
  pub subagent_session_id : Option String
  pub subagent_label : Option String
  pub error : Option StepError
  pub output : Option String

pub record Plan : Type 0 where
  pub id : String
  pub session_id : String
  pub goal : String
  pub status : PlanStatus
  pub steps : List Step
  pub created_at : ℕ
  pub updated_at : ℕ
  pub error : Option StepError
