-- ===== src/Plan/Pass/Batch.antt =====
-- One batch of a level: what its events say, and what it does to the pass.
use phus.Prelude.{
  ℕ, suc, ◌+◌, ◌-◌, ◌≤◌, String, ◌≡◌, refl, sym, ap, ◌∙◌, subst, inl, inr, List, [], ◌∷◌, ◌++◌,
  arith, Bool-cases, length, All,
}
use phus.Plan.{Step}
use phus.Plan.Executor.{StepOutcome, verified, replan_needed, stopped, no_result, out_of_fuel}
use phus.Plan.Executor.Retries.{with_progress}
use phus.Plan.Pass.{
  PlanEvent, plan_step_completed, plan_step_failed, saved, PassWorld, Pass, set_step, start_one,
  start_batch, is_proceed, classify, run_batch, one_batch,
}
use phus.Plan.Pass.Trace.{
  completed_after, AllDone, IsOrdered, running_after, IsCapped, starts, completed_after-append,
  IsOrdered-append, IsCapped-append, starts-append, running_after-append,
}

-- A stretch of a pass that starts and ends with no step running.
pub record IsSound (p : Pass) (after : Pass × List PlanEvent) : Type 0 where
  pub tracked : after.0.completed ≡ completed_after p.completed after.1
  pub ordered : IsOrdered p.completed after.1
  pub capped : IsCapped 3 0 after.1
  pub idle : running_after 0 after.1 ≡ 0
  pub counted : after.0.executed_steps ≡ p.executed_steps + starts after.1

pub IsSound-append :
    (p q r : Pass) (xs ys : List PlanEvent)
    → IsSound p (q, xs)
    → IsSound q (r, ys)
    → IsSound p (r, xs ++ ys)
IsSound-append p q r xs ys s t = record {
  tracked =
      t.tracked
      ∙ ap (λ ids. completed_after ids ys) s.tracked
      ∙ sym (completed_after-append p.completed xs ys);
  ordered =
      IsOrdered-append p.completed xs ys s.ordered
        (subst (λ ids. IsOrdered ids ys) s.tracked t.ordered);
  capped = IsCapped-append 3 0 xs ys s.capped (rw s.idle t.capped);
  idle = running_after-append 0 xs ys ∙ rw s.idle t.idle;
  counted = omega (arith, s.counted, t.counted, starts-append xs ys);
}

abbrev pub AllReady : List String → List Step → Type 0
AllReady ids steps = All (λ s. AllDone ids s.depends_on) steps

AllDone-cons : (x : String) (ids deps : List String) → AllDone ids deps → AllDone (x ∷ ids) deps
AllDone-cons x ids [] h = tt
AllDone-cons x ids (d ∷ deps) (e, h) = (ground arith, AllDone-cons x ids deps h)

AllDone-completed_after :
    (events : List PlanEvent) (ids deps : List String)
    → AllDone ids deps
    → AllDone (completed_after ids events) deps
AllDone-completed_after [] ids deps h = h
AllDone-completed_after (plan_step_completed s ∷ events) ids deps h =
    AllDone-completed_after events (s.id ∷ ids) deps (AllDone-cons s.id ids deps h)
AllDone-completed_after (_ ∷ events) ids deps h = AllDone-completed_after events ids deps h

-- What was ready stays ready.
pub AllReady-completed_after :
    (events : List PlanEvent) (ids : List String) (steps : List Step)
    → AllReady ids steps
    → AllReady (completed_after ids events) steps
AllReady-completed_after events ids [] h = tt
AllReady-completed_after events ids (s ∷ steps) (d, h) =
    (AllDone-completed_after events ids s.depends_on d, AllReady-completed_after events ids steps h)

-- The first half of a batch: its steps start.
record IsStart (ids : List String) (n : ℕ) (events : List PlanEvent) : Type 0 where
  keeps : completed_after ids events ≡ ids
  ordered : IsOrdered ids events
  running : (m : ℕ) → running_after m events ≡ m + n
  capped : (m : ℕ) → m + n ≤ 3 → IsCapped 3 m events
  started : starts events ≡ n

start_batch-IsStart :
    (ids : List String) (batch steps : List Step)
    → AllReady ids batch
    → IsStart ids (length batch) (start_batch batch steps).1
unfolding start_batch
start_batch-IsStart ids [] steps h = record {
  keeps = refl;
  ordered = tt;
  running = λ m. omega arith;
  capped = λ m le. omega arith;
  started = refl;
}
start_batch-IsStart ids (s ∷ batch) steps (d, h) =
    let rest = start_batch-IsStart ids batch (set_step (start_one s) steps) h in
    record {
      keeps = rest.keeps;
      ordered = (d, rest.ordered);
      running = λ m. omega (arith, rest.running (suc m));
      capped = λ m le. (omega arith, rest.capped (suc m) (omega arith));
      started = ap suc rest.started;
    }

-- The second half: they end, with `n` of them running before.
record IsEnd (p : Pass) (n : ℕ) (after : Pass × List PlanEvent) : Type 0 where
  tracked : after.0.completed ≡ completed_after p.completed after.1
  ordered : IsOrdered p.completed after.1
  running : (m : ℕ) → running_after m after.1 ≡ m - n
  capped : (m : ℕ) → m ≤ 3 → IsCapped 3 m after.1
  started : starts after.1 ≡ 0
  counted : after.0.executed_steps ≡ p.executed_steps + n

completes-IsEnd :
    (s : Step) (p q : Pass)
    → q.completed ≡ s.id ∷ p.completed
    → q.executed_steps ≡ p.executed_steps + 1
    → IsEnd p 1 (q, plan_step_completed s ∷ [])
completes-IsEnd s p q c e = record {
  tracked = c;
  ordered = tt;
  running = λ m. refl;
  capped = λ m le. (le, omega arith);
  started = refl;
  counted = e;
}

fails-IsEnd :
    (s : Step) (p q : Pass)
    → q.completed ≡ p.completed
    → q.executed_steps ≡ p.executed_steps + 1
    → IsEnd p 1 (q, plan_step_failed s ∷ [])
fails-IsEnd s p q c e = record {
  tracked = c;
  ordered = tt;
  running = λ m. refl;
  capped = λ m le. (le, omega arith);
  started = refl;
  counted = e;
}

classify-IsEnd :
    (s : Step) (outcome : StepOutcome) (p : Pass)
    → let (q, event) = classify s outcome (record p { executed_steps = p.executed_steps + 1 }) in
      IsEnd p 1 (q, event ∷ [])
unfolding classify
classify-IsEnd s (verified v) p = elim (Bool-cases (is_proceed v.action)) [
  | inl t ↦ rw t (completes-IsEnd _ p _ refl refl)
  | inr f ↦ rw f (fails-IsEnd _ p _ refl refl)
]
classify-IsEnd s (replan_needed reason) p = fails-IsEnd _ p _ refl refl
classify-IsEnd s (stopped action reason) p = fails-IsEnd _ p _ refl refl
classify-IsEnd s no_result p = fails-IsEnd _ p _ refl refl
classify-IsEnd s out_of_fuel p = fails-IsEnd _ p _ refl refl

IsEnd-append :
    (p q r : Pass) (m n : ℕ) (xs ys : List PlanEvent)
    → IsEnd p m (q, xs)
    → IsEnd q n (r, ys)
    → IsEnd p (m + n) (r, xs ++ ys)
IsEnd-append p q r m n xs ys s t = record {
  tracked =
      t.tracked
      ∙ ap (λ ids. completed_after ids ys) s.tracked
      ∙ sym (completed_after-append p.completed xs ys);
  ordered =
      IsOrdered-append p.completed xs ys s.ordered
        (subst (λ ids. IsOrdered ids ys) s.tracked t.ordered);
  running =
      λ k. omega (arith, running_after-append k xs ys, s.running k, t.running (running_after k xs));
  capped = λ k le.
      IsCapped-append 3 k xs ys (s.capped k le)
        (t.capped (running_after k xs) (omega (arith, s.running k)));
  started = omega (arith, starts-append xs ys, s.started, t.started);
  counted = omega (arith, s.counted, t.counted);
}

run_batch-IsEnd :
    (w : PassWorld) (batch : List Step) (p : Pass) → IsEnd p (length batch) (run_batch w batch p)
unfolding run_batch
run_batch-IsEnd w [] p = record {
  tracked = refl;
  ordered = tt;
  running = λ m. omega arith;
  capped = λ m le. le;
  started = refl;
  counted = omega arith;
}
run_batch-IsEnd w (s ∷ batch) p =
    let ran = w.execute p.executed_steps (start_one s) in
    let first =
      classify (with_progress (start_one s) ran.0) ran.1
        (record p { executed_steps = p.executed_steps + 1 }) in
    let rest = run_batch w batch first.0 in
    subst (λ n. IsEnd p n (rest.0, first.1 ∷ rest.1))
      (let z : 1 + length batch ≡ suc (length batch) = omega arith in z)
      (IsEnd-append p first.0 rest.0 1 (length batch) (first.1 ∷ []) rest.1
        (classify-IsEnd (with_progress (start_one s) ran.0) ran.1 p)
        (run_batch-IsEnd w batch first.0))

-- A batch of at most three ready steps is sound.
pub one_batch-IsSound :
    (w : PassWorld) (batch : List Step) (p : Pass)
    → AllReady p.completed batch
    → length batch ≤ 3
    → IsSound p (one_batch w batch p)
unfolding one_batch
one_batch-IsSound w batch p h le =
    let begun = start_batch batch p.steps in
    let q = record p { steps = begun.0 } in
    let ended = run_batch w batch q in
    let a = start_batch-IsStart p.completed batch p.steps h in
    let b = run_batch-IsEnd w batch q in
    let mid = saved begun.0 ∷ (ended.1 ++ saved ended.0.steps ∷ []) in
    let tail = saved ended.0.steps ∷ [] in
    let n = length batch in
    record {
      tracked =
          b.tracked
          ∙ sym (
              completed_after-append p.completed begun.1 mid
              ∙ ap (λ ids. completed_after ids mid) a.keeps
              ∙ completed_after-append p.completed ended.1 tail);
      ordered = IsOrdered-append p.completed begun.1 mid a.ordered (
          subst (λ ids. IsOrdered ids mid) (sym a.keeps)
            (IsOrdered-append p.completed ended.1 tail b.ordered tt));
      capped = IsCapped-append 3 0 begun.1 mid (a.capped 0 (omega (arith, le))) (
          subst (λ m. IsCapped 3 m mid) (sym (a.running 0))
            (
              (omega (arith, le)),
              IsCapped-append 3 (0 + n) ended.1 tail (b.capped (0 + n) (omega (arith, le))) (
                  let r : running_after (0 + n) ended.1 ≤ 3 = omega (arith, b.running (0 + n)) in
                  (r, r)),
            ));
      idle =
          running_after-append 0 begun.1 mid
          ∙ ap (λ m. running_after m mid) (a.running 0)
          ∙ running_after-append (0 + n) ended.1 tail
          ∙ b.running (0 + n)
          ∙ (let z : (0 + n) - n ≡ 0 = omega arith in z);
      counted = omega (
        arith,
        b.counted,
        a.started,
        b.started,
        starts-append begun.1 mid,
        starts-append ended.1 tail,
      );
    }

-- Each step of a batch is counted.
pub one_batch-executed_steps :
    (w : PassWorld) (batch : List Step) (p : Pass)
    → (one_batch w batch p).0.executed_steps ≡ p.executed_steps + length batch
unfolding one_batch
one_batch-executed_steps w batch p =
    (run_batch-IsEnd w batch (record p { steps = (start_batch batch p.steps).0 })).counted
