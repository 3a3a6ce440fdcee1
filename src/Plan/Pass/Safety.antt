-- ===== src/Plan/Pass/Safety.antt =====
-- What every pass keeps to: the order of dependencies, the cap on concurrency, the count of steps.
use phus.Prelude.{
  ℕ, zero, suc, ◌+◌, ◌≡◌, refl, sym, subst, ◌⊎◌, inl, inr, Bool, true, false, ◌||◌, Option, none,
  some, List, [], ◌∷◌, ◌++◌, if◌then◌else◌, Bool-cases, length, drop,
}
use phus.Plan.{StepError, Step}
use phus.Plan.Order.{sort_steps, compute_levels}
use phus.Plan.Pass.{
  PlanEvent, saved, PassWorld, Pass, skip_all, budget_hit, budget_remaining, Remaining, exceeded,
  uncapped, remaining, prepare, cut_batch, max_steps_of, one_batch, run_batches, stop_reason,
  run_levels, start_pass, run_pass,
}
use phus.Plan.Pass.Batch.{
  AllReady, one_batch-IsSound, IsSound, IsSound-append, AllReady-completed_after,
}
use phus.Plan.Pass.Ready.{
  IsSound-nil, IsSound-saved, IsSound-from, prepare-IsPrepared, cut_batch-IsCut, AllReady-drop,
}

pub Remaining-cases :
    (r : Remaining) → (r ≡ exceeded) ⊎ ((r ≡ uncapped) ⊎ ((n : ℕ) × (r ≡ remaining n)))
Remaining-cases exceeded = inl refl
Remaining-cases uncapped = inr (inl refl)
Remaining-cases (remaining n) = inr (inr (n, refl))

if-IsSound :
    (b : Bool) (p : Pass) (x y : Pass × List PlanEvent)
    → IsSound p x
    → IsSound p y
    → IsSound p (if b then x else y)
if-IsSound true p x y h k = h
if-IsSound false p x y h k = k

some-IsSound :
    (o : Option StepError) (p : Pass) (stop : StepError → Pass × List PlanEvent)
    (y : Pass × List PlanEvent)
    → ((e : StepError) → IsSound p (stop e))
    → IsSound p y
    → IsSound p (elim o [ some e ↦ stop e | none ↦ y ])
some-IsSound none p stop y h k = k
some-IsSound (some e) p stop y h k = h e

module _ (w : PassWorld) where
  -- After one batch: the rest of the level follows, or the loop is left.
  batch-IsSound :
      (left : Remaining) (steps : List Step) (p : Pass) (next : Pass → Pass × List PlanEvent)
      → AllReady p.completed steps
      → ((q : Pass) → AllReady q.completed (drop 3 steps) → IsSound q (next q))
      → let (batch, cut) = cut_batch w left steps (max_steps_of w w.robustness) p in
        let (p', events) = one_batch w batch cut in
        let (p'', more) = next p' in
        IsSound p
          (if p'.replan_requested || p'.stopped_early then (p', events) else (p'', events ++ more))
  batch-IsSound left steps p next h following =
      let cut = cut_batch w left steps (max_steps_of w w.robustness) p in
      let c = cut_batch-IsCut w left steps (max_steps_of w w.robustness) p h in
      let ran = one_batch w cut.0 cut.1 in
      let s =
        one_batch-IsSound w cut.0 cut.1 (subst (λ ids. AllReady ids cut.0) (sym c.same) c.all_ready)
          c.small in
      let from_p = IsSound-from p cut.1 ran c.same c.counts s in
      let still =
        subst (λ ids. AllReady ids (drop 3 steps)) (sym from_p.tracked)
          (AllReady-completed_after ran.1 p.completed (drop 3 steps)
            (AllReady-drop p.completed 3 steps h)) in
      elim (Bool-cases (ran.0.replan_requested || ran.0.stopped_early)) [
        | inl t ↦ rw t from_p
        | inr f ↦ rw f (
            IsSound-append p ran.0 (next ran.0).0 ran.1 (next ran.0).1 from_p
              (following ran.0 still))
      ]

  run_batches-IsSound :
      (fuel i : ℕ) (steps : List Step) (p : Pass)
      → AllReady p.completed steps
      → IsSound p (run_batches w fuel i steps p)
  unfolding run_batches
  run_batches-IsSound fuel i [] p h = IsSound-nil p p refl refl
  run_batches-IsSound zero i (s ∷ steps) p h = IsSound-nil p p refl refl
  run_batches-IsSound (suc fuel) i (s ∷ steps) p h =
      let more : (left : Remaining) → _ = λ left.
        batch-IsSound left (s ∷ steps) p (run_batches w fuel (i + 3) (drop 3 (s ∷ steps))) h
          (run_batches-IsSound fuel (i + 3) (drop 3 (s ∷ steps))) in
      elim (Bool-cases (w.abort_requested p.executed_steps)) [
        | inl t ↦ rw (run_batches, t) (IsSound-nil p _ refl refl)
        | inr f ↦ elim (Remaining-cases (budget_remaining w.robustness p.executed_steps)) [
          | inl e ↦ rw (run_batches, f, e) (IsSound-saved p _ _ [] (IsSound-nil p _ refl refl))
          | inr (inl e) ↦ rw (run_batches, f, e) (more uncapped)
          | inr (inr (n, e)) ↦ rw (run_batches, f, e) (more (remaining n))
        ]
      ]

  run_levels-IsSound :
      (all_steps : List Step) (levels : List (List Step)) (p : Pass)
      → IsSound p (run_levels w all_steps levels p)
  unfolding run_levels
  run_levels-IsSound all_steps [] p = IsSound-nil p p refl refl
  run_levels-IsSound all_steps (level ∷ levels) p =
      let prepared = prepare level p in
      let ready_steps = prepare-IsPrepared level p in
      let ran = run_batches w (length prepared.1) 0 prepared.1 prepared.0 in
      let sound =
        run_batches-IsSound (length prepared.1) 0 prepared.1 prepared.0
          (subst (λ ids. AllReady ids prepared.1) (sym ready_steps.same) ready_steps.all_ready) in
      let rest = run_levels w all_steps levels ran.0 in
      let following =
        IsSound-append p prepared.0 rest.0 prepared.2 (ran.1 ++ rest.1) ready_steps.sound (
          IsSound-append prepared.0 ran.0 rest.0 ran.1 rest.1 sound
            (run_levels-IsSound all_steps levels ran.0)) in
      if-IsSound p.stopped_early p _ _ (IsSound-nil p p refl refl) (
        some-IsSound
          (stop_reason w (w.abort_requested p.executed_steps)
            (budget_hit w.robustness (w.elapsed_ms p.executed_steps) p.executed_steps))
          p
          (λ reason.
            let skipped = skip_all reason all_steps p.steps in
            (record p { steps = skipped; stopped_early = true }, saved skipped ∷ []))
          _ (λ reason. IsSound-saved p _ _ [] (IsSound-nil p _ refl refl)) following)

-- In a pass over a plan, whatever the steps, the executor, the clock and the user do, no step starts
-- before every step that it depends on is complete; at no point do more than three steps run, and
-- none does at the end; and `executed_steps` is the number of steps that were started.
pub run_pass-IsSound :
    (w : PassWorld) (steps : List Step) → IsSound (start_pass steps) (run_pass w steps)
unfolding run_pass
run_pass-IsSound w steps =
    let p = start_pass steps in
    let ran = run_levels w (sort_steps steps) (compute_levels (sort_steps steps)) p in
    IsSound-saved p ran.0 steps ran.1
      (run_levels-IsSound w (sort_steps steps) (compute_levels (sort_steps steps)) p)
