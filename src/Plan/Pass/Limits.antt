-- ===== src/Plan/Pass/Limits.antt =====
-- budgetHit and budgetRemaining: how many steps a pass may start.
use phus.Prelude.{
  ℕ, zero, suc, ◌+◌, ◌-◌, ◌≤◌, ◌<◌, ◌≡◌, refl, inl, inr, Bool, true, false, ◌||◌, Option, none,
  some, List, [], ◌∷◌, ◌++◌, arith, ltb, leb, if◌then◌else◌, lt→ltb, not_ltb→le, not_leb→lt,
  Bool-cases, length, take, drop, length-take,
}
use phus.Fuse.{RobustnessConfig}
use phus.Plan.{StepError, Step}
use phus.Plan.Order.{sort_steps, compute_levels}
use phus.Plan.Pass.{
  PlanEvent, saved, PassWorld, Pass, skip_all, budget_hit, budget_remaining, exceeded, remaining,
  readiness, prepare, cut_batch, max_steps_of, one_batch, run_batches, stop_reason, run_levels,
  start_pass, run_pass,
}
use phus.Plan.Pass.Trace.{starts}
use phus.Plan.Pass.Batch.{one_batch-executed_steps}
use phus.Plan.Pass.Ready.{Readiness-cases}
use phus.Plan.Pass.Safety.{run_pass-IsSound}

prepare-executed_steps :
    (level : List Step) (p : Pass) → (prepare level p).0.executed_steps ≡ p.executed_steps
unfolding prepare
prepare-executed_steps [] p = refl
prepare-executed_steps (s ∷ level) p = elim (Readiness-cases (readiness p s)) [
  | inl d ↦ rw (prepare, d) (prepare-executed_steps level p)
  | inr (inl (s', inl u)) ↦ rw (prepare, u) (prepare-executed_steps level _)
  | inr (inl (s', inr u)) ↦ rw (prepare, u) (prepare-executed_steps level _)
  | inr (inr (s', r)) ↦ rw (prepare, r) (prepare-executed_steps level _)
]

module _ (w : PassWorld) (cfg : RobustnessConfig) (loads : w.robustness ≡ some cfg)
    (limited : 0 < cfg.plan_max_steps) where
  abbrev Within : Pass × List PlanEvent → Type 0
  Within after = after.0.executed_steps ≤ cfg.plan_max_steps

  budget_remaining-limited :
      (executed : ℕ)
      → budget_remaining w.robustness executed ≡ (
          if leb cfg.plan_max_steps executed
          then exceeded
          else remaining (cfg.plan_max_steps - executed))
  unfolding budget_remaining
  budget_remaining-limited executed = rw (loads, lt→ltb 0 cfg.plan_max_steps limited) refl

  cut_batch-fits :
      (n : ℕ) (steps : List Step) (limit : ℕ) (p : Pass)
      → let (batch, cut) = cut_batch w (remaining n) steps limit p in
        (length batch ≤ n) × (cut.executed_steps ≡ p.executed_steps)
  cut_batch-fits n steps limit p = elim (Bool-cases (ltb n (length (take 3 steps)))) [
    | inl t ↦ rw t (omega (arith, length-take n steps), refl)
    | inr f ↦ rw f (not_ltb→le n (length (take 3 steps)) f, refl)
  ]

  if-Within :
      (b : Bool) (x y : Pass × List PlanEvent) → Within x → Within y → Within (if b then x else y)
  if-Within true x y h k = h
  if-Within false x y h k = k

  some-Within :
      (o : Option StepError) (stop : StepError → Pass × List PlanEvent) (y : Pass × List PlanEvent)
      → ((e : StepError) → Within (stop e))
      → Within y
      → Within (elim o [ some e ↦ stop e | none ↦ y ])
  some-Within none stop y h k = k
  some-Within (some e) stop y h k = h e

  batch-Within :
      (steps : List Step) (p : Pass) (next : Pass → Pass × List PlanEvent)
      → p.executed_steps < cfg.plan_max_steps
      → ((q : Pass) → q.executed_steps ≤ cfg.plan_max_steps → Within (next q))
      → let left = remaining (cfg.plan_max_steps - p.executed_steps) in
        let (batch, cut) = cut_batch w left steps (max_steps_of w w.robustness) p in
        let (p', events) = one_batch w batch cut in
        let (p'', more) = next p' in
        Within
          (if p'.replan_requested || p'.stopped_early then (p', events) else (p'', events ++ more))
  batch-Within steps p next lt following =
      let left = cfg.plan_max_steps - p.executed_steps in
      let cut = cut_batch w (remaining left) steps (max_steps_of w w.robustness) p in
      let (fits, same) = cut_batch-fits left steps (max_steps_of w w.robustness) p in
      let ran = one_batch w cut.0 cut.1 in
      let within : Within ran =
        omega (arith, fits, same, lt, one_batch-executed_steps w cut.0 cut.1) in
      if-Within (ran.0.replan_requested || ran.0.stopped_early) _ _ within (following ran.0 within)

  run_batches-Within :
      (fuel i : ℕ) (steps : List Step) (p : Pass)
      → p.executed_steps ≤ cfg.plan_max_steps
      → Within (run_batches w fuel i steps p)
  unfolding run_batches
  run_batches-Within fuel i [] p h = h
  run_batches-Within zero i (s ∷ steps) p h = h
  run_batches-Within (suc fuel) i (s ∷ steps) p h =
      elim (Bool-cases (w.abort_requested p.executed_steps)) [
        | inl t ↦ rw (run_batches, t) h
        | inr f ↦ elim (Bool-cases (leb cfg.plan_max_steps p.executed_steps)) [
          | inl t ↦ rw (run_batches, f, budget_remaining-limited p.executed_steps, t) h
          | inr lt ↦
              rw (run_batches, f, budget_remaining-limited p.executed_steps, lt)
                (batch-Within (s ∷ steps) p (run_batches w fuel (i + 3) (drop 3 (s ∷ steps)))
                  (not_leb→lt cfg.plan_max_steps p.executed_steps lt)
                  (run_batches-Within fuel (i + 3) (drop 3 (s ∷ steps))))
        ]
      ]

  run_levels-Within :
      (all_steps : List Step) (levels : List (List Step)) (p : Pass)
      → p.executed_steps ≤ cfg.plan_max_steps
      → Within (run_levels w all_steps levels p)
  unfolding run_levels
  run_levels-Within all_steps [] p h = h
  run_levels-Within all_steps (level ∷ levels) p h =
      let prepared = prepare level p in
      let ran = run_batches w (length prepared.1) 0 prepared.1 prepared.0 in
      let within =
        run_batches-Within (length prepared.1) 0 prepared.1 prepared.0
          (omega (arith, prepare-executed_steps level p)) in
      if-Within p.stopped_early _ _ h (
        some-Within
          (stop_reason w (w.abort_requested p.executed_steps)
            (budget_hit w.robustness (w.elapsed_ms p.executed_steps) p.executed_steps))
          (λ reason.
            let skipped = skip_all reason all_steps p.steps in
            (record p { steps = skipped; stopped_early = true }, saved skipped ∷ []))
          _ (λ reason. h) (run_levels-Within all_steps levels ran.0 within))

  -- With a limit on the steps of a plan, a pass does not start more of them.
  pub run_pass-starts : (steps : List Step) → starts (run_pass w steps).1 ≤ cfg.plan_max_steps
  unfolding run_pass
  run_pass-starts steps = omega (
    arith,
    (run_pass-IsSound w steps).counted,
    run_levels-Within (sort_steps steps) (compute_levels (sort_steps steps)) (start_pass steps)
        (omega arith),
  )
