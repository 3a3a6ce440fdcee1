-- ===== src/TuiState/Panel.antt =====
-- state.ts: the actions of the reducer on the panel of the active plan.
use phus.Prelude.{
  ℕ, String, Bool, true, false, not, Option, none, some, List, [], ◌∷◌, ◌++◌, map, if◌then◌else◌,
  filter, find?,
}
use text.Mathlib.Text.{◌==◌ as str_eq}
use phus.TuiState.{PlanStepStatus, PlanStepState, PlanSubagentState, PlanState}
use phus.TuiState.Items.{or_else}

-- `Partial<PlanStepState>`: the keys that are there, with their values.
pub record StepMeta : Type 0 where
  pub id : Option String
  pub description : Option String
  pub status : Option PlanStepStatus
  pub duration_ms : Option (Option ℕ)
  pub error : Option (Option String)
  pub retry_count : Option (Option ℕ)
  pub level : Option (Option ℕ)
  pub subagent_session_id : Option (Option String)
  pub subagent_label : Option (Option String)
  pub output : Option (Option String)
  pub tool : Option (Option String)

-- `{ ...s, ...meta }`
abbrev pub merge_meta : StepMeta → PlanStepState → PlanStepState
merge_meta meta s = record {
  id = or_else meta.id s.id;
  description = or_else meta.description s.description;
  status = or_else meta.status s.status;
  duration_ms = or_else meta.duration_ms s.duration_ms;
  error = or_else meta.error s.error;
  retry_count = or_else meta.retry_count s.retry_count;
  level = or_else meta.level s.level;
  subagent_session_id = or_else meta.subagent_session_id s.subagent_session_id;
  subagent_label = or_else meta.subagent_label s.subagent_label;
  output = or_else meta.output s.output;
  tool = or_else meta.tool s.tool;
}

abbrev pub map_step : String → (PlanStepState → PlanStepState) → PlanState → PlanState
map_step id f plan = record plan { steps = map (λ s. if str_eq s.id id then f s else s) plan.steps }

abbrev is_running : PlanStepStatus → Bool
is_running PlanStepStatus.running = true
is_running _ = false

abbrev pub set_step_status : String → PlanStepStatus → PlanState → PlanState
set_step_status id status plan =
    let changed = map_step id (λ s. record s { status = status }) plan in
    record changed { current_step_id = if is_running status then some id else plan.current_step_id }

abbrev pub progress_or : Option String → Option String → Option String
progress_or none old = old
progress_or (some text) old = some text

-- `{ ...a, ...subagent }`, where a `progress` that is not there leaves the old one.
abbrev pub merge_subagent : PlanSubagentState → PlanSubagentState → PlanSubagentState
merge_subagent new old = record new { progress = progress_or new.progress old.progress }

abbrev pub is_subagent : String → PlanSubagentState → Bool
is_subagent id a = str_eq a.session_id id

unfoldable pub upsert_subagent : PlanSubagentState → List PlanSubagentState → List PlanSubagentState
upsert_subagent new subagents = elim (find? (is_subagent new.session_id) subagents) [
  | some existing ↦
      map (λ a. if is_subagent new.session_id a then merge_subagent new a else a) subagents
  | none ↦ subagents ++ new ∷ []
]

unfoldable pub remove_subagent : String → List PlanSubagentState → List PlanSubagentState
remove_subagent id subagents = filter (λ a. not (is_subagent id a)) subagents

-- `if (!state.plan) return state;`
abbrev pub map_plan : (PlanState → PlanState) → Option PlanState → Option PlanState
map_plan f none = none
map_plan f (some plan) = some (f plan)
