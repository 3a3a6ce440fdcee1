-- ===== src/Scheduler/Due.antt =====
-- packages/core/src/runtime/scheduler/index.ts: a tick fires what came due since the last one.
use phus.Prelude.{
  ℕ, zero, suc, ◌+◌, ◌-◌, ◌≤◌, ◌<◌, String, ◌≡◌, refl, sym, ap, ◌∙◌, subst, inl, inr, Bool, true,
  false, not, ◌&&◌, Option, none, some, List, [], ◌∷◌, ◌++◌, append-nil, append_assoc, arith, leb,
  ◌==◌, if◌then◌else◌, not_leb→lt, leb→le, Bool-cases, any,
}
use phus.Hooks.{HookRegistry}
use phus.Hooks.Run.{Executed, single, many, rejected}
use phus.Scheduler.{
  Schedule, FiredSchedule, HookValue, CronParser, LogEvent, Scheduler, is_disabled, is_within, logs,
  fire_logs, after_fire, fire, tick_each, tick,
}

-- The times from `from` on, `count` of them.
abbrev pub times : ℕ → ℕ → List ℕ
times from zero = []
times from (suc count) = from ∷ times (suc from) count

-- A time at which `due` holds lies in [since, now).
abbrev pub has_due : (ℕ → Bool) → ℕ → ℕ → Bool
has_due due since now = any due (times since (now - since))

-- What cron-parser says of `prev()`: the last time before the current date at which the expression
-- is due, where there is one.
pub record IsCron {E : Type 0} (parser : CronParser E) (due : String → ℕ → Bool) : Type 0 where
  pub none_before :
      (cron : String) (now : ℕ)
      → parser.prev cron now ≡ none
      → (t : ℕ) → t < now
      → due cron t ≡ false
  pub is_due : (cron : String) (now t : ℕ) → parser.prev cron now ≡ some t → due cron t ≡ true
  pub before : (cron : String) (now t : ℕ) → parser.prev cron now ≡ some t → t < now
  pub last :
      (cron : String) (now t u : ℕ)
      → parser.prev cron now ≡ some t
      → t < u
      → u < now
      → due cron u ≡ false

any-times-false :
    (due : ℕ → Bool) (from count : ℕ)
    → ((t : ℕ) → from ≤ t → t < from + count → due t ≡ false)
    → any due (times from count) ≡ false
any-times-false due from zero h = refl
any-times-false due from (suc count) h = ground (
  arith,
  h from (omega arith) (omega arith),
  any-times-false due (suc from) count (λ t a b. h t (omega arith) (omega arith)),
)

any-times-true :
    (due : ℕ → Bool) (from count t : ℕ)
    → from ≤ t
    → t < from + count
    → due t ≡ true
    → any due (times from count) ≡ true
any-times-true due from zero t a b e = absurd (omega arith)
any-times-true due from (suc count) t a b e = elim (Bool-cases (from == t)) [
  | inl same ↦ let eq : from ≡ t = ground arith in ground (arith, e, (rw (sym eq) at e))
  | inr other ↦ ground (arith, any-times-true due (suc from) count t (ground arith) (omega arith) e)
]

module _ {E : Type 0} (parser : CronParser E) (due : String → ℕ → Bool)
    (cron : IsCron parser due) where
  is_within-has_due :
      (expr : String) (since now : ℕ) (prev : Option ℕ)
      → parser.prev expr now ≡ prev
      → is_within prev since now ≡ has_due (due expr) since now
  is_within-has_due expr since now none e = sym (
      any-times-false (due expr) since (now - since)
        (λ t a b. cron.none_before expr now e t (omega arith)))
  is_within-has_due expr since now (some prev) e =
      let early = cron.before expr now prev e in
      elim (Bool-cases (leb since prev)) [
        | inl t ↦
            let seen =
              any-times-true (due expr) since (now - since) prev (leb→le since prev t)
                (let a = leb→le since prev t in omega arith) (cron.is_due expr now prev e) in
            ground (arith, t, seen, early)
        | inr f ↦
            let late = not_leb→lt since prev f in
            let seen =
              any-times-false (due expr) since (now - since)
                (λ t a b. cron.last expr now prev t e (omega arith) (omega arith)) in
            ground (arith, f, seen)
      ]

  module _ {J : Type 0} (hooks : HookRegistry (HookValue J) E)
      (on_fire : FiredSchedule J → Option E) where
    -- What a tick fires, in the words of the times at which a schedule is due.
    abbrev pub fires_at : ℕ → ℕ → List (String × Schedule J) → List (FiredSchedule J)
    fires_at since now [] = []
    fires_at since now (e ∷ schedules) =
        let rest = fires_at since now schedules in
        if not (is_disabled e.1.enabled) && has_due (due e.1.cron) since now
        then record { schedule = e.1; fired_at = now } ∷ rest
        else rest

    -- A tick leaves all but the logs, the calls of `onFire` and the time of the last tick.
    pub record IsTicked (now : ℕ) (before after : Scheduler J E) : Type 0 where
      pub fires : after.fires ≡ before.fires ++ fires_at before.last_tick now before.schedules
      pub schedules : after.schedules ≡ before.schedules
      pub last_tick : after.last_tick ≡ now

    record Same (before after : Scheduler J E) : Type 0 where
      fires : after.fires ≡ before.fires
      schedules : after.schedules ≡ before.schedules
      last_tick : after.last_tick ≡ before.last_tick

    fire_logs-Same :
        (name : String) (result : Executed (HookValue J) E) (event : LogEvent E) (t : Scheduler J E)
        → Same t (fire_logs name result (logs event t))
    fire_logs-Same name (single v) event t = record {
      fires = refl;
      schedules = refl;
      last_tick = refl;
    }
    fire_logs-Same name (many vs) event t = record {
      fires = refl;
      schedules = refl;
      last_tick = refl;
    }
    fire_logs-Same name (rejected err) event t = record {
      fires = refl;
      schedules = refl;
      last_tick = refl;
    }

    -- What one schedule adds.
    record Adds (added : List (FiredSchedule J)) (before after : Scheduler J E) : Type 0 where
      fires : after.fires ≡ before.fires ++ added
      schedules : after.schedules ≡ before.schedules
      last_tick : after.last_tick ≡ before.last_tick

    after_fire-Adds :
        (name : String) (o : Option E) (event : FiredSchedule J) (t u : Scheduler J E)
        → Same t u
        → Adds (event ∷ []) t (after_fire name o (record u { fires = u.fires ++ event ∷ [] }))
    after_fire-Adds name none event t u h = record {
      fires = ap (λ f. f ++ event ∷ []) h.fires;
      schedules = h.schedules;
      last_tick = h.last_tick;
    }
    after_fire-Adds name (some err) event t u h = record {
      fires = ap (λ f. f ++ event ∷ []) h.fires;
      schedules = h.schedules;
      last_tick = h.last_tick;
    }

    fire-Adds :
        (s : Schedule J) (now : ℕ) (t : Scheduler J E)
        → Adds (record { schedule = s; fired_at = now } ∷ []) t (fire parser hooks on_fire s now t)
    unfolding fire
    fire-Adds s now t = after_fire-Adds s.name _ _ t _ (fire_logs-Same s.name _ _ t)

    skip-Adds : (t : Scheduler J E) → Adds [] t t
    skip-Adds t = record { fires = sym (append-nil t.fires); schedules = refl; last_tick = refl }

    Adds-trans :
        (xs ys : List (FiredSchedule J)) (s t u : Scheduler J E)
        → Adds xs s t
        → Adds ys t u
        → Adds (xs ++ ys) s u
    Adds-trans xs ys s t u h k = record {
      fires = k.fires ∙ ap (λ f. f ++ ys) h.fires ∙ append_assoc s.fires xs ys;
      schedules = k.schedules ∙ h.schedules;
      last_tick = k.last_tick ∙ h.last_tick;
    }

    -- One schedule of a tick, after its tests.
    choose-Adds :
        (off on : Bool) (s : Schedule J) (now : ℕ) (rest : List (FiredSchedule J))
        (t u : Scheduler J E)
        → Adds rest (if off then t else (if on then fire parser hooks on_fire s now t else t)) u
        → Adds (if not off && on then record { schedule = s; fired_at = now } ∷ rest else rest) t u
    choose-Adds true on s now rest t u h = h
    choose-Adds false true s now rest t u h =
        Adds-trans (record { schedule = s; fired_at = now } ∷ []) rest t
          (fire parser hooks on_fire s now t) u (fire-Adds s now t) h
    choose-Adds false false s now rest t u h = h

    tick_each-Adds :
        (since now : ℕ) (schedules : List (String × Schedule J)) (t : Scheduler J E)
        → Adds
            (fires_at since now schedules)
            t
            (tick_each parser hooks on_fire since now schedules t)
    unfolding tick_each
    tick_each-Adds since now [] t = skip-Adds t
    tick_each-Adds since now (e ∷ schedules) t =
        choose-Adds (is_disabled e.1.enabled) (has_due (due e.1.cron) since now) e.1 now
          (fires_at since now schedules) t _
          (subst
            (λ on.
              Adds (fires_at since now schedules)
                (if is_disabled e.1.enabled
                  then t
                  else (if on then fire parser hooks on_fire e.1 now t else t))
                (tick_each parser hooks on_fire since now (e ∷ schedules) t))
            (is_within-has_due e.1.cron since now (parser.prev e.1.cron now) refl)
            (tick_each-Adds since now schedules _))

    -- A tick calls `onFire` for the schedules that are not disabled and have a time at which they
    -- are due in [last tick, now), in their order and once each, whether hooks or `onFire` throw or
    -- not; and the next tick starts from `now`.
    pub tick-IsTicked :
        (now : ℕ) (t : Scheduler J E) → IsTicked now t (tick parser hooks on_fire now t)
    unfolding tick
    tick-IsTicked now t =
        let added = tick_each-Adds t.last_tick now t.schedules (record t { last_tick = now }) in
        record { fires = added.fires; schedules = added.schedules; last_tick = added.last_tick }
