-- ===== src/PlanStore/Validation.antt =====
-- plan-store.ts: the baselines of skill validation and the history of its attempts, as two tables.
pub mod Counts
use phus.Prelude.{
  ℕ, suc, ◌+◌, String, Bool, not, ◌&&◌, ◌||◌, Option, none, some, List, [], ◌∷◌, ◌++◌, ltb, leb,
  ◌==◌, if◌then◌else◌, length, take, filter, find?,
}
use phus.Prelude.Sort.{sort}
use text.Mathlib.Text.{◌==◌ as str_eq}

pub data MetricsStatus : Type 0 where
  run_completed run_failed : MetricsStatus

pub record ValidationMetrics : Type 0 where
  pub step_count : ℕ
  pub failures : ℕ
  pub duration_ms : ℕ
  pub status : MetricsStatus
  pub recorded_at : ℕ

pub data ValidationOutcome : Type 0 where
  improved baseline pending failed : ValidationOutcome

pub record ValidationAttempt : Type 0 where
  pub draft_name : String
  pub outcome : ValidationOutcome
  pub metrics : ValidationMetrics
  pub reason : String
  pub session_id : Option String
  pub ts : ℕ

pub record BaselineRow : Type 0 where
  pub draft_name : String
  pub metrics : Option ValidationMetrics
  pub updated_at : ℕ

pub record AttemptRow : Type 0 where
  pub id : ℕ
  pub draft_name : String
  pub outcome : String
  pub metrics : Option ValidationMetrics
  pub reason : String
  pub session_id : Option String
  pub ts : ℕ

pub record ValidationTables : Type 0 where
  pub validation_baselines : List BaselineRow
  pub validation_attempts : List AttemptRow
  -- AUTOINCREMENT
  pub next_id : ℕ

abbrev pub empty_tables : ValidationTables
empty_tables = record { validation_baselines = []; validation_attempts = []; next_id = 1 }

unfoldable pub record_validation_baseline :
    String → ValidationMetrics → ℕ → ValidationTables → ValidationTables
record_validation_baseline draft_name metrics now store = record store {
  validation_baselines =
      filter (λ (row : BaselineRow). not (str_eq row.draft_name draft_name))
        store.validation_baselines
      ++ record { draft_name = draft_name; metrics = some metrics; updated_at = now } ∷ [];
}

abbrev metrics_of : Option BaselineRow → Option ValidationMetrics
metrics_of none = none
metrics_of (some row) = row.metrics

unfoldable pub get_validation_baseline : ValidationTables → String → Option ValidationMetrics
get_validation_baseline store draft_name =
    metrics_of
      (find? (λ (row : BaselineRow). str_eq row.draft_name draft_name) store.validation_baselines)

abbrev pub outcome_text : ValidationOutcome → String
outcome_text improved = "improved"
outcome_text baseline = "baseline"
outcome_text pending = "pending"
outcome_text failed = "failed"

unfoldable pub normalize_outcome : String → ValidationOutcome
normalize_outcome raw =
    if str_eq raw "improved"
    then improved
    else if str_eq raw "baseline"
    then baseline
    else if str_eq raw "pending"
    then pending
    else failed

unfoldable pub record_validation_attempt : ValidationAttempt → ValidationTables → ValidationTables
record_validation_attempt a store = record store {
  validation_attempts =
      store.validation_attempts
      ++ record {
        id = store.next_id;
        draft_name = a.draft_name;
        outcome = outcome_text a.outcome;
        metrics = some a.metrics;
        reason = a.reason;
        session_id = a.session_id;
        ts = a.ts;
      }
        ∷ [];
  next_id = suc store.next_id;
}

-- ORDER BY ts DESC, id DESC
abbrev pub later : AttemptRow → AttemptRow → Bool
later a b = ltb b.ts a.ts || (a.ts == b.ts) && ltb b.id a.id

abbrev pub of_draft : String → AttemptRow → Bool
of_draft draft_name row = str_eq row.draft_name draft_name

unfoldable pub attempts_of : List AttemptRow → List ValidationAttempt
unfolding normalize_outcome
attempts_of [] = []
attempts_of (row ∷ rows) =
    let rest = attempts_of rows in
    elim row.metrics [
      | none ↦ rest
      | some metrics ↦
          record {
            draft_name = row.draft_name;
            outcome = normalize_outcome row.outcome;
            metrics = metrics;
            reason = row.reason;
            session_id = row.session_id;
            ts = row.ts;
          }
          ∷ rest
    ]

unfoldable pub get_validation_history : ValidationTables → String → ℕ → List ValidationAttempt
unfolding attempts_of
get_validation_history store draft_name limit =
    attempts_of (take limit (sort later (filter (of_draft draft_name) store.validation_attempts)))

pub record Stats : Type 0 where
  pub total : ℕ
  pub improved : ℕ
  pub failed : ℕ
  pub pending : ℕ
  pub baseline : ℕ
  pub last_improved_at : Option ℕ

-- One turn of the loop over the rows.
abbrev pub count_outcome : ValidationOutcome → ℕ → Stats → Stats
count_outcome improved ts stats = record stats {
  improved = stats.improved + 1;
  last_improved_at = some ts;
}
count_outcome failed ts stats = record stats { failed = stats.failed + 1 }
count_outcome pending ts stats = record stats { pending = stats.pending + 1 }
count_outcome baseline ts stats = record stats { baseline = stats.baseline + 1 }

unfoldable pub count_rows : List AttemptRow → Stats → Stats
unfolding normalize_outcome
count_rows [] stats = stats
count_rows (row ∷ rows) stats =
    count_rows rows (count_outcome (normalize_outcome row.outcome) row.ts stats)

unfoldable pub get_validation_stats : ValidationTables → String → Stats
unfolding count_rows
get_validation_stats store draft_name =
    let rows = sort later (filter (of_draft draft_name) store.validation_attempts) in
    count_rows rows (record {
      total = length rows;
      improved = 0;
      failed = 0;
      pending = 0;
      baseline = 0;
      last_improved_at = none;
    })

unfoldable pub has_improved_at_least_once : ValidationTables → String → ℕ → Bool
unfolding get_validation_stats
has_improved_at_least_once store draft_name min_times =
    leb min_times (get_validation_stats store draft_name).improved
