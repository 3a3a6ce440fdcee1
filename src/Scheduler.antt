-- ===== src/Scheduler.antt =====
-- packages/core/src/runtime/scheduler/index.ts: Scheduler, with the context that it makes by
-- packages/core/src/runtime/hook/ctx-builder.ts. The parser of cron expressions, a library, and the
-- callback `onFire` are arguments; the timer is a flag, and its ticks are calls of `tick`, each
-- of which runs to its end.
pub mod Due
mod Tests
use phus.Prelude.{
  ℕ, zero, suc, ◌+◌, String, ◌⊎◌, inl, inr, Bool, true, false, not, ◌&&◌, Option, none, some, List,
  [], ◌∷◌, ◌++◌, map, leb, if◌then◌else◌, length,
}
use Prim.Native.String.{◌++◌ as concat}
use text.Mathlib.Text.{◌==◌ as str_eq}
use phus.Prelude.Maps.{lookup, put, remove}
use phus.Hooks.{HookMode, HookRegistry}
use phus.Hooks.Run.{Executed, single, many, rejected, Run, execute}

pub record Schedule (J : Type 0) : Type 0 where
  pub name : String
  pub cron : String
  pub hook_name : String
  pub payload : Option J
  pub enabled : Option Bool
  pub description : Option String

pub record FiredSchedule (J : Type 0) : Type 0 where
  pub schedule : Schedule J
  pub fired_at : ℕ

-- A member of `extras`; `object none` is `{}`.
pub data Extra (J : Type 0) : Type 0 where
  words : String → Extra J
  time : ℕ → Extra J
  object : Option J → Extra J

-- `HookContext`, less the services `tape` and `skills` and the turn's `envelope` and `session`.
pub record HookContext (J : Type 0) : Type 0 where
  pub session_id : Option String
  pub state : List (String × J)
  pub extras : List (String × Extra J)

-- What a hook takes and gives.
pub data HookValue (J : Type 0) : Type 0 where
  context : HookContext J → HookValue J
  other : J → HookValue J

-- What `onLog` is told.
pub data LogEvent (E : Type 0) : Type 0 where
  registered unregistered enabled disabled : String → LogEvent E
  started : ℕ → LogEvent E
  stopped : LogEvent E
  fired : String → ℕ → LogEvent E
  tick_failed fire_failed : String → E → LogEvent E

-- cron-parser: why `parse` throws, where it does; `prev()` and `next()` of a parsed expression from
-- a current date, where they do not throw.
pub record CronParser (E : Type 0) : Type 0 where
  pub invalid : String → Option E
  pub prev : String → ℕ → Option ℕ
  pub next : String → ℕ → Option ℕ

pub record Scheduler (J E : Type 0) : Type 0 where
  pub schedules : List (String × Schedule J)
  pub interval : Bool
  pub tick_interval_ms : ℕ
  pub last_tick : ℕ
  -- The calls of `onFire` and of `onLog`.
  pub fires : List (FiredSchedule J)
  pub log : List (LogEvent E)

pub data ScheduleError (E : Type 0) : Type 0 where
  invalid_cron : String → E → ScheduleError E
  already_registered : String → ScheduleError E

abbrev pub default_interval : Option ℕ → ℕ
default_interval none = 60000
default_interval (some ms) = ms

abbrev pub or_enabled : Option Bool → Option Bool
or_enabled none = some true
or_enabled (some flag) = some flag

-- `s.enabled === false`
abbrev pub is_disabled : Option Bool → Bool
is_disabled (some flag) = not flag
is_disabled none = false

-- `partial.sessionId ? … : undefined`
abbrev pub session_id_of : String → Option String
session_id_of id = if str_eq id "" then none else some id

-- `prevMs >= since && prevMs <= now`
abbrev pub is_within : Option ℕ → ℕ → ℕ → Bool
is_within none since now = false
is_within (some prev) since now = leb since prev && leb prev now

module _ {J : Type 0} where
  abbrev pub make_ctx : String → List (String × Extra J) → HookContext J
  make_ctx session_id extras = record {
    session_id = session_id_of session_id;
    state = [];
    extras = extras;
  }

  -- The context of a schedule that fires.
  abbrev pub fire_ctx : Schedule J → ℕ → HookContext J
  fire_ctx s fired_at = make_ctx (concat "schedule:" s.name) (
      ("schedule", words s.name)
      ∷ ("cron", words s.cron)
      ∷ ("payload", object s.payload)
      ∷ ("firedAt", time fired_at)
      ∷ [])

module _ {J E : Type 0} where
  abbrev pub new_scheduler : Option ℕ → Scheduler J E
  new_scheduler tick_interval = record {
    schedules = [];
    interval = false;
    tick_interval_ms = default_interval tick_interval;
    last_tick = 0;
    fires = [];
    log = [];
  }

  abbrev pub logs : LogEvent E → Scheduler J E → Scheduler J E
  logs event s = record s { log = s.log ++ event ∷ [] }

  abbrev pub get : String → Scheduler J E → Option (Schedule J)
  get name s = lookup name s.schedules

  abbrev pub list : Scheduler J E → List (Schedule J)
  list s = map (λ e. e.1) s.schedules

  unfoldable pub register :
      CronParser E → Schedule J → Scheduler J E → (ScheduleError E ⊎ Scheduler J E)
  register parser schedule s = elim (parser.invalid schedule.cron) [
    | some err ↦ inl (invalid_cron schedule.name err)
    | none ↦ elim (lookup schedule.name s.schedules) [
      | some old ↦ inl (already_registered schedule.name)
      | none ↦ inr (
          logs (registered schedule.name) (record s {
            schedules =
                put schedule.name (record schedule { enabled = or_enabled schedule.enabled })
                  s.schedules;
          }))
    ]
  ]

  unfoldable pub unregister : String → Scheduler J E → Scheduler J E × Bool
  unregister name s = elim (lookup name s.schedules) [
    | none ↦ (s, false)
    | some old ↦ (logs (unregistered name) (record s { schedules = remove name s.schedules }), true)
  ]

  unfoldable pub set_enabled : String → Bool → Scheduler J E → Scheduler J E × Bool
  set_enabled name flag s = elim (lookup name s.schedules) [
    | none ↦ (s, false)
    | some old ↦ (
      logs (if flag then enabled name else disabled name)
          (record s { schedules = put name (record old { enabled = some flag }) s.schedules }),
      true,
    )
  ]

  unfoldable pub start : ℕ → Scheduler J E → Scheduler J E
  start now s =
      if s.interval
      then s
      else logs (started (length s.schedules)) (record s { interval = true; last_tick = now })

  unfoldable pub stop : Scheduler J E → Scheduler J E
  stop s = if s.interval then logs stopped (record s { interval = false }) else s

  abbrev pub fire_logs : String → Executed (HookValue J) E → Scheduler J E → Scheduler J E
  fire_logs name (rejected err) s = logs (fire_failed name err) s
  fire_logs name (single value) s = s
  fire_logs name (many values) s = s

  -- The call of `onFire` and, where it throws, the `catch` of `tick`.
  abbrev pub after_fire : String → Option E → Scheduler J E → Scheduler J E
  after_fire name none s = s
  after_fire name (some err) s = logs (tick_failed name err) s

  module _ (parser : CronParser E) (hooks : HookRegistry (HookValue J) E)
      (on_fire : FiredSchedule J → Option E) where
    unfoldable pub fire : Schedule J → ℕ → Scheduler J E → Scheduler J E
    fire s now t =
        let run = execute s.hook_name (context (fire_ctx s now)) (some HookMode.broadcast) hooks in
        let reported = fire_logs s.name run.result (logs (fired s.name now) t) in
        let event : FiredSchedule J = record { schedule = s; fired_at = now } in
        after_fire s.name (on_fire event) (record reported { fires = reported.fires ++ event ∷ [] })

    -- A cron expression that does not parse has no previous time.
    abbrev pub should_fire_since : Schedule J → ℕ → ℕ → Bool
    should_fire_since s since now = is_within (parser.prev s.cron now) since now

    unfoldable pub tick_each : ℕ → ℕ → List (String × Schedule J) → Scheduler J E → Scheduler J E
    tick_each since now [] t = t
    tick_each since now (e ∷ schedules) t = tick_each since now schedules (
        if is_disabled e.1.enabled
        then t
        else (if should_fire_since e.1 since now then fire e.1 now t else t))

    unfoldable pub tick : ℕ → Scheduler J E → Scheduler J E
    tick now t = tick_each t.last_tick now t.schedules (record t { last_tick = now })

abbrev pub next_from : {E : Type 0} → CronParser E → String → ℕ → ℕ → Option (List ℕ)
next_from parser cron zero from = some []
next_from parser cron (suc count) from = elim (parser.next cron from) [
  | none ↦ none
  | some at ↦ elim (next_from parser cron count at) [ none ↦ none | some rest ↦ some (at ∷ rest) ]
]

-- `none` where the parser throws.
unfoldable pub next_fires : {E : Type 0} → CronParser E → String → ℕ → ℕ → Option (List ℕ)
next_fires parser cron count from = elim (parser.invalid cron) [
  | some err ↦ none
  | none ↦ next_from parser cron count from
]
