-- ===== src/Plan/Pass/Ready.antt =====
-- plan-runner.ts: the steps of a level that may start, and the batches that they are cut into.
use phus.Prelude.{
  ℕ, zero, suc, ◌+◌, ◌≤◌, String, ◌≡◌, refl, ◌∙◌, subst, ◌⊎◌, inl, inr, Bool, true, false, not,
  List, [], ◌∷◌, arith, ltb, if◌then◌else◌, ltb→lt, Bool-cases, length, take, drop, any,
  length-take,
}
use phus.Plan.{StepStatus, waiting, running, blocked, completed, failed, skipped, Step}
use phus.Plan.Order.{has_id}
use phus.Plan.Pass.{
  PlanEvent, refused, saved, PassWorld, Pass, get_step, Remaining, exceeded, uncapped, remaining,
  Readiness, done, unresolved, unmet, ready, readiness, readiness_when, check_deps, prepare,
  cut_batch,
}
use phus.Plan.Pass.Trace.{completed_after, AllDone, IsOrdered, starts}
use phus.Plan.Pass.Batch.{AllReady, IsSound}

pub IsSound-nil :
    (p q : Pass)
    → q.completed ≡ p.completed
    → q.executed_steps ≡ p.executed_steps
    → IsSound p (q, [])
IsSound-nil p q c e = record {
  tracked = c;
  ordered = tt;
  capped = omega arith;
  idle = refl;
  counted = omega (arith, e);
}

pub IsSound-saved :
    (p q : Pass) (s : List Step) (events : List PlanEvent)
    → IsSound p (q, events)
    → IsSound p (q, saved s ∷ events)
IsSound-saved p q s events r = record {
  tracked = r.tracked;
  ordered = r.ordered;
  capped = (omega arith, r.capped);
  idle = r.idle;
  counted = r.counted;
}

IsSound-refused :
    (p q : Pass) (s : Step) (events : List PlanEvent)
    → IsSound p (q, events)
    → IsSound p (q, refused s ∷ events)
IsSound-refused p q s events r = record {
  tracked = r.tracked;
  ordered = r.ordered;
  capped = (omega arith, r.capped);
  idle = r.idle;
  counted = r.counted;
}

-- Of the state before, only the complete ids and the count matter.
pub IsSound-from :
    (p q : Pass) (after : Pass × List PlanEvent)
    → q.completed ≡ p.completed
    → q.executed_steps ≡ p.executed_steps
    → IsSound q after
    → IsSound p after
IsSound-from p q after c e r = record {
  tracked = subst (λ ids. after.0.completed ≡ completed_after ids after.1) c r.tracked;
  ordered = subst (λ ids. IsOrdered ids after.1) c r.ordered;
  capped = r.capped;
  idle = r.idle;
  counted = subst (λ n. after.0.executed_steps ≡ n + starts after.1) e r.counted;
}

-- A dependency that is not among `ids` shows up in the test of `check_deps`.
none_missing-AllDone :
    (ids deps : List String) → any (λ id. not (has_id ids id)) deps ≡ false → AllDone ids deps
none_missing-AllDone ids [] h = tt
none_missing-AllDone ids (d ∷ deps) h = elim (Bool-cases (has_id ids d)) [
  | inl t ↦ (t, none_missing-AllDone ids deps (ground (arith, h, t)))
  | inr f ↦ absurd (ground (arith, h, f))
]

check_deps-ready :
    (bad missing : Bool) (u v s s' : Step)
    → (if bad then unmet u else if missing then unmet v else ready s) ≡ ready s'
    → (missing ≡ false) × (s ≡ s')
check_deps-ready true missing u v s s' e = absurd (cc e)
check_deps-ready false true u v s s' e = absurd (cc e)
check_deps-ready false false u v s s' e = (refl, cc e)

check_deps-AllDone :
    (ids bad : List String) (s s' : Step)
    → check_deps ids bad s ≡ ready s'
    → AllDone ids s'.depends_on
check_deps-AllDone ids bad s s' e =
    let (none_missing, same) =
      check_deps-ready (any (has_id bad) s.depends_on)
        (any (λ id. not (has_id ids id)) s.depends_on) _ _ s s' e in
    subst (λ t. AllDone ids t.depends_on) same (none_missing-AllDone ids s.depends_on none_missing)

readiness_when-AllDone :
    (status : StepStatus) (ids bad : List String) (s s' : Step)
    → readiness_when status ids bad s ≡ ready s'
    → AllDone ids s'.depends_on
readiness_when-AllDone completed ids bad s s' e = absurd (cc e)
readiness_when-AllDone blocked ids bad s s' e = absurd (cc e)
readiness_when-AllDone waiting ids bad s s' e = check_deps-AllDone ids bad _ s' e
readiness_when-AllDone running ids bad s s' e = check_deps-AllDone ids bad _ s' e
readiness_when-AllDone failed ids bad s s' e = check_deps-AllDone ids bad _ s' e
readiness_when-AllDone skipped ids bad s s' e = check_deps-AllDone ids bad _ s' e

-- A step that is found ready has all its dependencies complete.
readiness-AllDone :
    (p : Pass) (s s' : Step) → readiness p s ≡ ready s' → AllDone p.completed s'.depends_on
unfolding readiness
readiness-AllDone p s s' e =
    let now = get_step p.steps s in readiness_when-AllDone now.status p.completed p.failed now s' e

pub Readiness-cases :
    (r : Readiness)
    → (r ≡ done)
      ⊎ (((s : Step) × ((r ≡ unresolved s) ⊎ (r ≡ unmet s))) ⊎ ((s : Step) × (r ≡ ready s)))
Readiness-cases done = inl refl
Readiness-cases (unresolved s) = inr (inl (s, inl refl))
Readiness-cases (unmet s) = inr (inl (s, inr refl))
Readiness-cases (ready s) = inr (inr (s, refl))

pub record IsPrepared (p : Pass) (after : Pass × List Step × List PlanEvent) : Type 0 where
  pub sound : IsSound p (after.0, after.2)
  pub same : after.0.completed ≡ p.completed
  pub all_ready : AllReady p.completed after.1

refuses-IsPrepared :
    (p q : Pass) (s : Step) (after : Pass × List Step × List PlanEvent)
    → q.completed ≡ p.completed
    → q.executed_steps ≡ p.executed_steps
    → IsPrepared q after
    → IsPrepared p (after.0, after.1, refused s ∷ after.2)
refuses-IsPrepared p q s after c e r = record {
  sound = IsSound-refused p after.0 s after.2 (IsSound-from p q (after.0, after.2) c e r.sound);
  same = r.same ∙ c;
  all_ready = subst (λ ids. AllReady ids after.1) c r.all_ready;
}

keeps-IsPrepared :
    (p q : Pass) (s : Step) (after : Pass × List Step × List PlanEvent)
    → q.completed ≡ p.completed
    → q.executed_steps ≡ p.executed_steps
    → AllDone p.completed s.depends_on
    → IsPrepared q after
    → IsPrepared p (after.0, s ∷ after.1, after.2)
keeps-IsPrepared p q s after c e d r = record {
  sound = IsSound-from p q (after.0, after.2) c e r.sound;
  same = r.same ∙ c;
  all_ready = (d, subst (λ ids. AllReady ids after.1) c r.all_ready);
}

pub prepare-IsPrepared : (level : List Step) (p : Pass) → IsPrepared p (prepare level p)
unfolding prepare
prepare-IsPrepared [] p = record { sound = IsSound-nil p p refl refl; same = refl; all_ready = tt }
prepare-IsPrepared (s ∷ level) p = elim (Readiness-cases (readiness p s)) [
  | inl d ↦ rw (prepare, d) (prepare-IsPrepared level p)
  | inr (inl (s', inl u)) ↦
      rw (prepare, u) (refuses-IsPrepared p _ s' _ refl refl (prepare-IsPrepared level _))
  | inr (inl (s', inr u)) ↦
      rw (prepare, u) (refuses-IsPrepared p _ s' _ refl refl (prepare-IsPrepared level _))
  | inr (inr (s', r)) ↦
      let d = readiness-AllDone p s s' r in
      rw (prepare, r) (keeps-IsPrepared p _ s' _ refl refl d (prepare-IsPrepared level _))
]

AllReady-take :
    (ids : List String) (n : ℕ) (steps : List Step)
    → AllReady ids steps
    → AllReady ids (take n steps)
AllReady-take ids zero steps h = tt
AllReady-take ids (suc n) [] h = tt
AllReady-take ids (suc n) (s ∷ steps) (d, h) = (d, AllReady-take ids n steps h)

pub AllReady-drop :
    (ids : List String) (n : ℕ) (steps : List Step)
    → AllReady ids steps
    → AllReady ids (drop n steps)
AllReady-drop ids zero steps h = h
AllReady-drop ids (suc n) [] h = tt
AllReady-drop ids (suc n) (s ∷ steps) (d, h) = AllReady-drop ids n steps h

-- However a batch is cut, it has at most three of the ready steps.
pub record IsCut (p : Pass) (after : List Step × Pass) : Type 0 where
  pub same : after.1.completed ≡ p.completed
  pub counts : after.1.executed_steps ≡ p.executed_steps
  pub small : length after.0 ≤ 3
  pub all_ready : AllReady p.completed after.0

whole-IsCut :
    (steps : List Step) (p : Pass) → AllReady p.completed steps → IsCut p (take 3 steps, p)
whole-IsCut steps p h = record {
  same = refl;
  counts = refl;
  small = omega (arith, length-take 3 steps);
  all_ready = AllReady-take p.completed 3 steps h;
}

pub cut_batch-IsCut :
    (w : PassWorld) (left : Remaining) (steps : List Step) (limit : ℕ) (p : Pass)
    → AllReady p.completed steps
    → IsCut p (cut_batch w left steps limit p)
cut_batch-IsCut w exceeded steps limit p h = whole-IsCut steps p h
cut_batch-IsCut w uncapped steps limit p h = whole-IsCut steps p h
cut_batch-IsCut w (remaining n) steps limit p h =
    elim (Bool-cases (ltb n (length (take 3 steps)))) [
      | inl t ↦ rw t (record {
        same = refl;
        counts = refl;
        small =
            omega
              (arith, length-take n steps, length-take 3 steps, ltb→lt n (length (take 3 steps)) t);
        all_ready = AllReady-take p.completed n steps h;
      })
      | inr f ↦ rw f (whole-IsCut steps p h)
    ]
