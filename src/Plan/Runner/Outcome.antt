-- ===== src/Plan/Runner/Outcome.antt =====
-- plan-runner.ts: what every run of a plan comes to, over all its passes.
use phus.Prelude.{
  ℕ, zero, suc, ◌*◌, ◌≤◌, ◌<◌, ◌≡◌, refl, ◌∙◌, inl, inr, Bool, true, false, Option, none, some,
  List, arith, if◌then◌else◌, Bool-cases,
}
use phus.Fuse.{RobustnessConfig}
use phus.Plan.{paused, completed, failed, Step}
use phus.Plan.Pass.{PassWorld, Pass, PlanEvent, run_pass}
use phus.Plan.Pass.Trace.{
  IsCapped, IsCapped-append, running_after, running_after-append, starts, starts-append,
}
use phus.Plan.Pass.Safety.{run_pass-IsSound}
use phus.Plan.Pass.Limits.{run_pass-starts}
use phus.Plan.Runner.{
  max_replan_attempts, RunWorld, Run, all_completed, settle, give_up, after_pass, run_attempts,
  run_plan,
}

-- The end of a run.
pub data IsFinal : Run → Type 0 where
  -- Everything is done, and this is announced.
  completes :
      {r : Run}
      → r.status ≡ completed
      → all_completed r.steps ≡ true
      → r.announced ≡ true
      → r.error ≡ none
      → IsFinal r
  -- A step is not complete, and no replan was asked for.
  fails :
      {r : Run}
      → r.status ≡ failed
      → all_completed r.steps ≡ false
      → r.announced ≡ true
      → r.error ≡ none
      → IsFinal r
  pauses : {r : Run} → r.status ≡ paused → IsFinal r

settle-IsFinal : (p : Pass) (events : List PlanEvent) → IsFinal (settle p events)
unfolding settle
settle-IsFinal p events = elim (Bool-cases p.stopped_early) [
  | inl t ↦ pauses (ground (arith, t))
  | inr f ↦ elim (Bool-cases p.replan_requested) [
    | inl t ↦ pauses (ground (arith, f, t))
    | inr g ↦ elim (Bool-cases (all_completed p.steps)) [
      | inl t ↦ completes (ground (arith, f, g, t)) t (ground (arith, f)) (ground (arith, g))
      | inr h ↦ fails (ground (arith, f, g, h)) h (ground (arith, f)) (ground (arith, g))
    ]
  ]
]

after_pass-IsFinal : (events : List PlanEvent) (r : Run) → IsFinal r → IsFinal (after_pass events r)
after_pass-IsFinal events r (completes s a b e) = completes s a b e
after_pass-IsFinal events r (fails s a b e) = fails s a b e
after_pass-IsFinal events r (pauses s) = pauses s

-- `left` replans are allowed.
pub record IsRun (left : ℕ) (r : Run) : Type 0 where
  pub final : IsFinal r
  pub some_pass : 0 < r.passes
  pub few_passes : r.passes ≤ suc left
  pub capped : IsCapped 3 0 r.events
  pub idle : running_after 0 r.events ≡ 0

settle-IsRun :
    (left : ℕ) (w : PassWorld) (steps : List Step)
    → let (p, events) = run_pass w steps in IsRun left (settle p events)
unfolding settle
settle-IsRun left w steps =
    let ran = run_pass w steps in
    let sound = run_pass-IsSound w steps in
    record {
      final = settle-IsFinal ran.0 ran.1;
      some_pass = omega arith;
      few_passes = omega arith;
      capped = sound.capped;
      idle = sound.idle;
    }

give_up-IsRun :
    (left : ℕ) (w : PassWorld) (steps : List Step)
    → let (p, events) = run_pass w steps in IsRun left (give_up p events)
give_up-IsRun left w steps =
    let sound = run_pass-IsSound w steps in
    record {
      final = pauses refl;
      some_pass = omega arith;
      few_passes = omega arith;
      capped = sound.capped;
      idle = sound.idle;
    }

after_pass-IsRun :
    (left : ℕ) (w : PassWorld) (steps : List Step) (r : Run)
    → IsRun left r
    → IsRun (suc left) (after_pass (run_pass w steps).1 r)
after_pass-IsRun left w steps r h =
    let events = (run_pass w steps).1 in
    let sound = run_pass-IsSound w steps in
    record {
      final = after_pass-IsFinal events r h.final;
      some_pass = omega arith;
      few_passes = omega (arith, h.few_passes);
      capped = IsCapped-append 3 0 events r.events sound.capped (rw sound.idle h.capped);
      idle = running_after-append 0 events r.events ∙ rw sound.idle h.idle;
    }

-- The ways an attempt goes on.
by_attempt :
    (P : Run → Type 0) (replans : Bool) (created : Option (List Step)) (x y : Run)
    (f : List Step → Run)
    → P x
    → P y
    → ((steps : List Step) → P (f steps))
    → P (if replans then elim created [ none ↦ x | some steps ↦ f steps ] else y)
by_attempt P false created x y f h k l = k
by_attempt P true none x y f h k l = h
by_attempt P true (some steps) x y f h k l = l steps

run_attempts-IsRun :
    (w : RunWorld) (left attempt : ℕ) (steps : List Step)
    → IsRun left (run_attempts w left attempt steps)
unfolding run_attempts
run_attempts-IsRun w zero attempt steps = settle-IsRun zero (w.pass attempt) steps
run_attempts-IsRun w (suc left) attempt steps =
    let (p, events) = run_pass (w.pass attempt) steps in
    by_attempt (IsRun (suc left)) p.replan_requested (w.create_plan attempt p.steps)
      (give_up p events) (settle p events)
      (λ steps'. after_pass events (run_attempts w left (suc attempt) steps'))
      (give_up-IsRun (suc left) (w.pass attempt) steps)
      (settle-IsRun (suc left) (w.pass attempt) steps)
      (λ steps'.
        after_pass-IsRun left (w.pass attempt) steps _
          (run_attempts-IsRun w left (suc attempt) steps'))

-- Every run of a plan ends after one to three passes, whatever the planner, the executor and the user
-- do. It is complete only if every step is, and failed only if one is not, both announced and
-- without an error of the runner; else it is paused. Over all its passes, never more than three steps
-- run at once, and none does at the end.
pub run_plan-IsRun :
    (w : RunWorld) (steps : List Step) → IsRun max_replan_attempts (run_plan w steps)
unfolding run_plan
run_plan-IsRun w steps = run_attempts-IsRun w max_replan_attempts 0 steps

module _ (w : RunWorld) (cfg : RobustnessConfig)
    (loads : (attempt : ℕ) → (w.pass attempt).robustness ≡ some cfg)
    (limited : 0 < cfg.plan_max_steps) where
  pass_starts :
      (attempt : ℕ) (steps : List Step)
      → starts (run_pass (w.pass attempt) steps).1 ≤ cfg.plan_max_steps
  pass_starts attempt steps = run_pass-starts (w.pass attempt) cfg (loads attempt) limited steps

  run_attempts-starts :
      (left attempt : ℕ) (steps : List Step)
      → starts (run_attempts w left attempt steps).events ≤ suc left * cfg.plan_max_steps
  unfolding run_attempts settle
  run_attempts-starts zero attempt steps = omega (arith, pass_starts attempt steps)
  run_attempts-starts (suc left) attempt steps =
      let (p, events) = run_pass (w.pass attempt) steps in
      let few : starts events ≤ suc (suc left) * cfg.plan_max_steps =
        omega (arith, pass_starts attempt steps) in
      by_attempt (λ r. starts r.events ≤ suc (suc left) * cfg.plan_max_steps) p.replan_requested
        (w.create_plan attempt p.steps) (give_up p events) (settle p events)
        (λ steps'. after_pass events (run_attempts w left (suc attempt) steps')) few few
        (λ steps'. omega (
          arith,
          pass_starts attempt steps,
          run_attempts-starts left (suc attempt) steps',
          starts-append events (run_attempts w left (suc attempt) steps').events,
        ))

  -- With a limit on the steps of a plan, a run starts at most three times as many: each of its
  -- passes has the whole limit.
  pub run_plan-starts :
      (steps : List Step) → starts (run_plan w steps).events ≤ 3 * cfg.plan_max_steps
  unfolding run_plan
  run_plan-starts steps = run_attempts-starts max_replan_attempts 0 steps
