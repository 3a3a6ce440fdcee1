-- ===== src/PlanStore.antt =====
-- packages/core/src/session/plan-store.ts: the store of plans; Validation has its other
-- two tables. A SQLite table is a list of rows in the order of insertion: INSERT OR REPLACE takes the row of the
-- same primary key away, ORDER BY sorts, and rows that it leaves equal keep their order. A payload
-- that JSON.parse refuses is `none`, and else what JSON.parse makes of it; what `save` writes is the
-- plan after the way through JSON, on which only the results of steps can change.
pub mod Sorted
pub mod Newest
pub mod Validation
mod Tests
use phus.Prelude.{
  ℕ, ◌+◌, String, Bool, true, not, ◌&&◌, Option, none, some, List, [], ◌∷◌, ◌++◌, map, ltb, ◌==◌,
  if◌then◌else◌, filter, find?,
}
use phus.Prelude.Sort.{sort}
use text.Mathlib.Text.{◌==◌ as str_eq}
use phus.Prelude.Json.{reread_field}
use phus.Plan.{PlanStatus, pending, running, paused, completed, failed, Step, Plan}

pub record PlanRow : Type 0 where
  pub id : String
  pub session_id : String
  pub status : PlanStatus
  pub payload : Option Plan
  pub updated_at : ℕ

pub record PlanStore : Type 0 where
  pub plans : List PlanRow

abbrev pub empty_store : PlanStore
empty_store = record { plans = [] }

abbrev pub is_other : String → PlanRow → Bool
is_other id row = not (str_eq row.id id)

-- JSON.parse of JSON.stringify of a plan.
abbrev pub reread_step : Step → Step
reread_step step = record step { result = reread_field step.result }

abbrev pub reread_plan : Plan → Plan
reread_plan plan = record plan { steps = map reread_step plan.steps }

abbrev pub row_of : Plan → PlanRow
row_of plan = record {
  id = plan.id;
  session_id = plan.session_id;
  status = plan.status;
  payload = some (reread_plan plan);
  updated_at = plan.updated_at;
}

unfoldable pub save : Plan → PlanStore → PlanStore
save plan store = record { plans = filter (is_other plan.id) store.plans ++ row_of plan ∷ [] }

abbrev pub payload_of : Option PlanRow → Option Plan
payload_of none = none
payload_of (some row) = row.payload

unfoldable pub load : PlanStore → String → Option Plan
load store id = payload_of (find? (λ row. str_eq row.id id) store.plans)

unfoldable pub delete : String → PlanStore → PlanStore
delete id store = record { plans = filter (is_other id) store.plans }

-- ORDER BY updated_at DESC
abbrev pub newer : PlanRow → PlanRow → Bool
newer a b = ltb b.updated_at a.updated_at

-- The payloads that can be parsed.
unfoldable pub parsed : List PlanRow → List Plan
parsed [] = []
parsed (row ∷ rows) =
    let rest = parsed rows in elim row.payload [ some plan ↦ plan ∷ rest | none ↦ rest ]

abbrev rank : PlanStatus → ℕ
rank pending = 0
rank running = 1
rank paused = 2
rank completed = 3
rank failed = 4

abbrev pub same_status : PlanStatus → PlanStatus → Bool
same_status a b = rank a == rank b

abbrev pub of_session : String → PlanRow → Bool
of_session session_id row = str_eq row.session_id session_id

-- `status ?`: without a status, every plan of the session.
abbrev pub has_status : Option PlanStatus → PlanRow → Bool
has_status none row = true
has_status (some status) row = same_status row.status status

unfoldable pub load_by_session : PlanStore → String → Option PlanStatus → List Plan
unfolding parsed
load_by_session store session_id status =
    parsed
      (sort newer (filter (λ row. of_session session_id row && has_status status row) store.plans))

abbrev pub is_active : PlanStatus → Bool
is_active status = not (same_status status completed) && not (same_status status failed)

-- `plan.status`, not the column.
unfoldable pub first_active : List PlanRow → Option Plan
first_active [] = none
first_active (row ∷ rows) =
    let rest = first_active rows in
    elim row.payload [ none ↦ rest | some plan ↦ if is_active plan.status then some plan else rest ]

unfoldable pub load_active_for_session : PlanStore → String → Option Plan
unfolding first_active
load_active_for_session store session_id =
    first_active (sort newer (filter (of_session session_id) store.plans))

unfoldable pub load_interrupted : PlanStore → ℕ → List Plan
unfolding parsed
load_interrupted store cutoff_ms = parsed (
    sort newer
      (filter (λ row. same_status row.status running && ltb row.updated_at cutoff_ms) store.plans))

unfoldable pub load_paused : PlanStore → List Plan
unfolding parsed
load_paused store = parsed (sort newer (filter (λ row. same_status row.status paused) store.plans))
