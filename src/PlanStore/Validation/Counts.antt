-- ===== src/PlanStore/Validation/Counts.antt =====
-- plan-store.ts: what getValidationStats counts.
use phus.Prelude.{
  ℕ, suc, ◌+◌, String, ◌≡◌, refl, subst, inl, inr, Bool, true, false, none, List, [], ◌∷◌, arith,
  ◌==◌, Bool-cases, length, filter,
}
use phus.Prelude.Sort.{sort, insert}
use phus.PlanStore.Validation.{
  ValidationOutcome, improved, baseline, pending, failed, AttemptRow, ValidationTables,
  normalize_outcome, outcome_text, later, of_draft, Stats, count_outcome, count_rows,
  get_validation_stats,
}

abbrev rank : ValidationOutcome → ℕ
rank improved = 0
rank baseline = 1
rank pending = 2
rank failed = 3

abbrev pub has_outcome : ValidationOutcome → AttemptRow → Bool
has_outcome outcome row = rank (normalize_outcome row.outcome) == rank outcome

abbrev pub tally : (AttemptRow → Bool) → List AttemptRow → ℕ
tally q rows = length (filter q rows)

one_if : Bool → ℕ
one_if true = 1
one_if false = 0

tally-cons :
    (q : AttemptRow → Bool) (row : AttemptRow) (rows : List AttemptRow)
    → tally q (row ∷ rows) ≡ one_if (q row) + tally q rows
unfolding one_if
tally-cons q row rows = elim (Bool-cases (q row)) [
  | inl t ↦ ground (arith, t)
  | inr f ↦ ground (arith, f)
]

tally-insert :
    (q : AttemptRow → Bool) (row : AttemptRow) (rows : List AttemptRow)
    → tally q (insert later row rows) ≡ one_if (q row) + tally q rows
unfolding insert
tally-insert q row [] = tally-cons q row []
tally-insert q row (r ∷ rows) = elim (Bool-cases (later r row)) [
  | inl t ↦
      rw (insert, t)
        (omega (
          arith,
          tally-cons q r (insert later row rows),
          tally-insert q row rows,
          tally-cons q r rows,
        ))
  | inr f ↦ rw (insert, f) (tally-cons q row (r ∷ rows))
]

tally-sort :
    (q : AttemptRow → Bool) (rows : List AttemptRow) → tally q (sort later rows) ≡ tally q rows
unfolding sort
tally-sort q [] = refl
tally-sort q (row ∷ rows) =
    omega (arith, tally-insert q row (sort later rows), tally-sort q rows, tally-cons q row rows)

length-insert :
    (row : AttemptRow) (rows : List AttemptRow) → length (insert later row rows) ≡ suc (length rows)
unfolding insert
length-insert row [] = refl
length-insert row (r ∷ rows) = elim (Bool-cases (later r row)) [
  | inl t ↦ rw (insert, t) (omega (arith, length-insert row rows))
  | inr f ↦ rw (insert, f) refl
]

length-sort : (rows : List AttemptRow) → length (sort later rows) ≡ length rows
unfolding sort
length-sort [] = refl
length-sort (row ∷ rows) = omega (arith, length-insert row (sort later rows), length-sort rows)

-- `to` is `from` with the rows counted.
record IsCounted (rows : List AttemptRow) (from to : Stats) : Type 0 where
  same_total : to.total ≡ from.total
  adds_improved : to.improved ≡ tally (has_outcome improved) rows + from.improved
  adds_baseline : to.baseline ≡ tally (has_outcome baseline) rows + from.baseline
  adds_pending : to.pending ≡ tally (has_outcome pending) rows + from.pending
  adds_failed : to.failed ≡ tally (has_outcome failed) rows + from.failed
  sum :
      length rows
      ≡ tally (has_outcome improved) rows
        + tally (has_outcome baseline) rows
        + tally (has_outcome pending) rows
        + tally (has_outcome failed) rows

tally-outcome :
    (o k : ValidationOutcome) (row : AttemptRow) (rows : List AttemptRow)
    → normalize_outcome row.outcome ≡ o
    → tally (has_outcome k) (row ∷ rows) ≡ one_if (rank o == rank k) + tally (has_outcome k) rows
tally-outcome o k row rows e =
    subst
      (λ p.
        tally (has_outcome k) (row ∷ rows) ≡ one_if (rank p == rank k) + tally (has_outcome k) rows)
      e (tally-cons (has_outcome k) row rows)

outcome-IsCounted :
    (o : ValidationOutcome) (row : AttemptRow) (rows : List AttemptRow) (stats to : Stats)
    → normalize_outcome row.outcome ≡ o
    → IsCounted rows (count_outcome o row.ts stats) to
    → IsCounted (row ∷ rows) stats to
unfolding one_if
outcome-IsCounted improved row rows stats to e c = record {
  same_total = c.same_total;
  adds_improved = omega (arith, c.adds_improved, tally-outcome improved improved row rows e);
  adds_baseline = omega (arith, c.adds_baseline, tally-outcome improved baseline row rows e);
  adds_pending = omega (arith, c.adds_pending, tally-outcome improved pending row rows e);
  adds_failed = omega (arith, c.adds_failed, tally-outcome improved failed row rows e);
  sum = omega (
    arith,
    c.sum,
    tally-outcome improved improved row rows e,
    tally-outcome improved baseline row rows e,
    tally-outcome improved pending row rows e,
    tally-outcome improved failed row rows e,
  );
}
outcome-IsCounted baseline row rows stats to e c = record {
  same_total = c.same_total;
  adds_improved = omega (arith, c.adds_improved, tally-outcome baseline improved row rows e);
  adds_baseline = omega (arith, c.adds_baseline, tally-outcome baseline baseline row rows e);
  adds_pending = omega (arith, c.adds_pending, tally-outcome baseline pending row rows e);
  adds_failed = omega (arith, c.adds_failed, tally-outcome baseline failed row rows e);
  sum = omega (
    arith,
    c.sum,
    tally-outcome baseline improved row rows e,
    tally-outcome baseline baseline row rows e,
    tally-outcome baseline pending row rows e,
    tally-outcome baseline failed row rows e,
  );
}
outcome-IsCounted pending row rows stats to e c = record {
  same_total = c.same_total;
  adds_improved = omega (arith, c.adds_improved, tally-outcome pending improved row rows e);
  adds_baseline = omega (arith, c.adds_baseline, tally-outcome pending baseline row rows e);
  adds_pending = omega (arith, c.adds_pending, tally-outcome pending pending row rows e);
  adds_failed = omega (arith, c.adds_failed, tally-outcome pending failed row rows e);
  sum = omega (
    arith,
    c.sum,
    tally-outcome pending improved row rows e,
    tally-outcome pending baseline row rows e,
    tally-outcome pending pending row rows e,
    tally-outcome pending failed row rows e,
  );
}
outcome-IsCounted failed row rows stats to e c = record {
  same_total = c.same_total;
  adds_improved = omega (arith, c.adds_improved, tally-outcome failed improved row rows e);
  adds_baseline = omega (arith, c.adds_baseline, tally-outcome failed baseline row rows e);
  adds_pending = omega (arith, c.adds_pending, tally-outcome failed pending row rows e);
  adds_failed = omega (arith, c.adds_failed, tally-outcome failed failed row rows e);
  sum = omega (
    arith,
    c.sum,
    tally-outcome failed improved row rows e,
    tally-outcome failed baseline row rows e,
    tally-outcome failed pending row rows e,
    tally-outcome failed failed row rows e,
  );
}

count_rows-IsCounted :
    (rows : List AttemptRow) (stats : Stats) → IsCounted rows stats (count_rows rows stats)
unfolding count_rows
count_rows-IsCounted [] stats = record {
  same_total = refl;
  adds_improved = omega arith;
  adds_baseline = omega arith;
  adds_pending = omega arith;
  adds_failed = omega arith;
  sum = omega arith;
}
count_rows-IsCounted (row ∷ rows) stats =
    outcome-IsCounted (normalize_outcome row.outcome) row rows stats _ refl
      (count_rows-IsCounted rows (count_outcome (normalize_outcome row.outcome) row.ts stats))

-- The statistics of a draft whose attempts are `rows`.
pub record IsTallied (rows : List AttemptRow) (stats : Stats) : Type 0 where
  pub all_rows : stats.total ≡ length rows
  pub improved_rows : stats.improved ≡ tally (has_outcome improved) rows
  pub baseline_rows : stats.baseline ≡ tally (has_outcome baseline) rows
  pub pending_rows : stats.pending ≡ tally (has_outcome pending) rows
  pub failed_rows : stats.failed ≡ tally (has_outcome failed) rows
  pub adds_up : stats.total ≡ stats.improved + stats.baseline + stats.pending + stats.failed

-- getValidationStats counts the attempts of the draft, all of them and by their outcome, where an
-- outcome that it does not know counts as failed; and the four counts add up to the total.
pub get_validation_stats-IsTallied :
    (tables : ValidationTables) (draft_name : String)
    → IsTallied
        (filter (of_draft draft_name) tables.validation_attempts)
        (get_validation_stats tables draft_name)
unfolding get_validation_stats
get_validation_stats-IsTallied tables draft_name =
    let rows = filter (of_draft draft_name) tables.validation_attempts in
    let c = count_rows-IsCounted (sort later rows) (record {
      total = length (sort later rows);
      improved = 0;
      failed = 0;
      pending = 0;
      baseline = 0;
      last_improved_at = none;
    }) in
    record {
      all_rows = omega (arith, c.same_total, length-sort rows);
      improved_rows = omega (arith, c.adds_improved, tally-sort (has_outcome improved) rows);
      baseline_rows = omega (arith, c.adds_baseline, tally-sort (has_outcome baseline) rows);
      pending_rows = omega (arith, c.adds_pending, tally-sort (has_outcome pending) rows);
      failed_rows = omega (arith, c.adds_failed, tally-sort (has_outcome failed) rows);
      adds_up = omega (
        arith, c.same_total, c.sum, c.adds_improved, c.adds_baseline, c.adds_pending, c.adds_failed,
      );
    }

-- An outcome that is recorded is read back.
pub normalize-outcome_text : (o : ValidationOutcome) → normalize_outcome (outcome_text o) ≡ o
unfolding normalize_outcome
normalize-outcome_text improved = refl
normalize-outcome_text baseline = refl
normalize-outcome_text pending = refl
normalize-outcome_text failed = refl
