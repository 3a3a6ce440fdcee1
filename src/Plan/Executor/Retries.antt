-- ===== src/Plan/Executor/Retries.antt =====
-- executor/index.ts: how often a step runs, and what `executeStep` may change.
use phus.Prelude.{
  ℕ, zero, suc, ◌+◌, ◌-◌, ◌≤◌, ◌<◌, String, ◌≡◌, refl, sym, ap, ◌∙◌, ◌≢◌, inl, inr, Bool, true,
  false, if◌then◌else◌, Option, none, some, arith, leb, not_leb→lt, leb→le, Bool-cases,
}
use phus.Prelude.Json.{Value, undefined}
use phus.Plan.{PlanPhase, StepStatus, running, completed, failed, Step}
use phus.Plan.Executor.{
  VerificationStatus, proceed, retry, replan, last_or, VerificationResult, StepWorld, StepOutcome,
  verified, out_of_fuel, step_loop, execute_step, settle_step, is_retry, fail_step, no_result,
  has_text, count_retry, prepare_retry,
}

-- The fields of a step that `executeStep` may write.
pub record Progress : Type 0 where
  pub status : StepStatus
  pub result : Value
  pub retry_count : ℕ
  pub phase : Option PlanPhase
  pub repair_context : Option String
  pub output : Option String

abbrev pub progress_of : Step → Progress
progress_of s = record {
  status = s.status;
  result = s.result;
  retry_count = s.retry_count;
  phase = s.phase;
  repair_context = s.repair_context;
  output = s.output;
}

abbrev pub with_progress : Step → Progress → Step
with_progress s p = record s {
  status = p.status;
  result = p.result;
  retry_count = p.retry_count;
  phase = p.phase;
  repair_context = p.repair_context;
  output = p.output;
}

module _ (w : StepWorld) where
  -- What a run of the loop from `step` ensures of its end.
  pub record IsSettled (limit : ℕ) (step : Step) (after : Step × StepOutcome) : Type 0 where
    pub same : after.0 ≡ with_progress step (progress_of after.0)
    pub ends : after.1 ≢ out_of_fuel
    pub counts : step.retry_count ≤ after.0.retry_count
    pub capped : step.retry_count ≤ suc limit → after.0.retry_count ≤ suc limit
    pub passed :
        (v : VerificationResult)
        → after.1 ≡ verified v
        → v.action ≡ proceed
        → after.0.status ≡ completed
    pub spent :
        (v : VerificationResult)
        → after.1 ≡ verified v
        → v.action ≢ proceed
        → limit < after.0.retry_count

  if-IsSettled :
      (limit : ℕ) (step : Step) (b : Bool) (x y : Step × StepOutcome)
      → IsSettled limit step x
      → IsSettled limit step y
      → IsSettled limit step (if b then x else y)
  if-IsSettled limit step true x y h k = h
  if-IsSettled limit step false x y h k = k

  no_result-IsSettled :
      (limit : ℕ) (step changed : Step)
      → changed ≡ with_progress step (progress_of changed)
      → step.retry_count ≤ changed.retry_count
      → (step.retry_count ≤ suc limit → changed.retry_count ≤ suc limit)
      → IsSettled limit step (changed, no_result)
  no_result-IsSettled limit step changed same counts capped = record {
    same = same;
    ends = λ e. cc e;
    counts = counts;
    capped = capped;
    passed = λ v' e k. absurd (cc e);
    spent = λ v' e k. absurd (cc e);
  }

  settle_step-IsSettled :
      (limit : ℕ) (step : Step) (result : Value) (v : VerificationResult) (a : VerificationStatus)
      → step.retry_count ≤ limit
      → v.action ≡ a
      → IsSettled limit step (settle_step w (record step { status = running }) result v a)
  settle_step-IsSettled limit step result v proceed le same_action =
      let done = record step {
        status = completed;
        result = result;
        output = some (w.output_of result);
        repair_context = none;
      } in
      if-IsSettled limit step (has_text w result) (done, verified v) _
        (record {
          same = refl;
          ends = λ e. cc e;
          counts = omega arith;
          capped = omega arith;
          passed = λ v' e k. refl;
          spent = λ v' e k.
              absurd (k (ap (λ u. u.action) (sym (let z : v ≡ v' = cc e in z)) ∙ same_action));
        })
        (no_result-IsSettled limit step (record step { status = completed; result = result }) refl
          (omega arith) (λ k. k))
  settle_step-IsSettled limit step result v replan le same_action = record {
    same = refl;
    ends = λ e. cc e;
    counts = omega arith;
    capped = omega arith;
    passed = λ v' e k. absurd (cc e);
    spent = λ v' e k. absurd (cc e);
  }
  settle_step-IsSettled limit step result v _ le same_action = record {
    same = refl;
    ends = λ e. cc e;
    counts = omega arith;
    capped = omega arith;
    passed = λ v' e k. absurd (cc e);
    spent = λ v' e k. absurd (cc e);
  }

  retried-IsSettled :
      (limit : ℕ) (step : Step) (result : Value) (v : VerificationResult)
      (after : Step × StepOutcome)
      → step.retry_count ≤ limit
      → IsSettled limit (prepare_retry w (record step { status = running }) result v) after
      → IsSettled limit step after
  retried-IsSettled limit step result v after le i = record {
    same = i.same;
    ends = i.ends;
    counts = omega (arith, i.counts);
    capped = λ h. i.capped (omega arith);
    passed = i.passed;
    spent = i.spent;
  }

  retry-ne-proceed : (a : VerificationStatus) → is_retry w a ≡ true → a ≢ proceed
  retry-ne-proceed retry h e = cc e
  retry-ne-proceed _ h e = cc

  fail_step-IsSettled :
      (limit : ℕ) (step : Step) (last : Value) (verification : Option VerificationResult)
      → limit < step.retry_count
      → (last_or verification).action ≢ proceed
      → IsSettled limit step (fail_step w last verification step)
  fail_step-IsSettled limit step last verification lt ne =
      let ended = record step {
        status = failed;
        result = last;
        output = some (w.output_of last);
      } in
      if-IsSettled limit step (has_text w last) (ended, verified (last_or verification)) _
        (record {
          same = refl;
          ends = λ e. cc e;
          counts = omega arith;
          capped = λ k. k;
          passed = λ v' e k. absurd (ne (ground arith));
          spent = λ v' e k. lt;
        })
        (no_result-IsSettled limit step (record step { status = failed; result = last }) refl
          (omega arith) (λ k. k))

  loop-IsSettled :
      (fuel limit n : ℕ) (last : Value) (verification : Option VerificationResult) (step : Step)
      → limit + 2 ≤ fuel + step.retry_count
      → 0 < fuel
      → (last_or verification).action ≢ proceed
      → IsSettled limit step (step_loop w fuel limit n last verification step)
  unfolding step_loop
  loop-IsSettled zero limit n last verification step h pos ne = absurd (omega arith)
  loop-IsSettled (suc fuel) limit n last verification step h pos ne =
      let started = record step { status = running } in
      let result = w.run_step n started in
      let v = w.verify started result in
      elim (Bool-cases (leb step.retry_count limit)) [
        | inr f ↦ rw f (
            fail_step-IsSettled limit step last verification (not_leb→lt step.retry_count limit f)
              ne)
        | inl t ↦
            let le = leb→le step.retry_count limit t in
            elim (Bool-cases (is_retry w v.action)) [
              | inl again ↦
                  rw (t, again)
                    (if-IsSettled limit step (has_text w result) _ _
                      (retried-IsSettled limit step result v _ le (
                        loop-IsSettled fuel limit (suc n) result (some v)
                          (prepare_retry w started result v) (omega arith) (omega arith)
                          (retry-ne-proceed v.action again)))
                      (no_result-IsSettled limit step (count_retry w started) refl (omega arith)
                        (λ k. omega arith)))
              | inr settled ↦
                  rw (t, settled) (settle_step-IsSettled limit step result v v.action le refl)
            ]
      ]

  -- `executeStep` always ends, after at most `maxRetries` retries: the count never falls, and does
  -- not pass maxRetries + 1 unless it had before. It writes only the status, the result, the count,
  -- the phase, the repair context and the output, and a verification that says "proceed" comes with a completed step.
  pub execute_step-IsSettled :
      (max_retries : ℕ) (step : Step) → IsSettled max_retries step (execute_step w max_retries step)
  unfolding execute_step
  execute_step-IsSettled max_retries step =
      loop-IsSettled (suc (max_retries + 1 - step.retry_count)) max_retries 0 undefined none step
        (omega arith) (omega arith) (λ e. cc e)

exhausted-no_result :
    (w : StepWorld) (limit : ℕ) (step : Step)
    → limit < step.retry_count
    → (execute_step w limit step).1 ≡ no_result
unfolding execute_step step_loop
exhausted-no_result w limit step lt = elim (Bool-cases (leb step.retry_count limit)) [
  | inl t ↦ absurd (omega (arith, leb→le step.retry_count limit t))
  | inr f ↦ rw (step_loop, f) refl
]

-- A step that has come back from `executeStep` with a verification that is not "proceed" has used
-- up its retries: when it is run again with the same limit, as a resumed plan does, nothing is run or
-- verified, and `executeStep` throws the TypeError of `shorten(undefined)`.
pub rerun-no_result :
    (w w' : StepWorld) (max_retries : ℕ) (step : Step) (v : VerificationResult)
    → (execute_step w max_retries step).1 ≡ verified v
    → v.action ≢ proceed
    → (execute_step w' max_retries (execute_step w max_retries step).0).1 ≡ no_result
rerun-no_result w w' max_retries step v e ne =
    exhausted-no_result w' max_retries (execute_step w max_retries step).0
      ((execute_step-IsSettled w max_retries step).spent v e ne)
