-- ===== src/Scheduler/Tests.antt =====
-- Runs of the scheduler, and its theorem at a concrete tick.
use phus.Prelude.{
  ℕ, zero, suc, ◌+◌, ◌-◌, ◌<◌, String, ◌≡◌, refl, inl, inr, Bool, true, false, Option, none, some,
  eq_of_some, [], ◌∷◌, arith, ◌==◌, if◌then◌else◌, length,
}
use Prim.Native.Nat.{◌%◌}
use phus.Prelude.Maps.{lookup, put}
use phus.Hooks
use text.Mathlib.Text.{◌==◌ as str_eq}
use phus.Hooks.{Outcome, throws, HookImpl, HookRegistry, new_registry}
use phus.Prelude.Sort.{sort}
use phus.Hooks.Run
use phus.Scheduler.{
  tick_each, fire, Schedule, FiredSchedule, HookValue, CronParser, Scheduler, new_scheduler,
  register, start, tick, next_fires,
}
use phus.Scheduler.Due.{IsCron, IsTicked, tick-IsTicked}

-- An expression that is due at the multiples of ten.
abbrev due : String → ℕ → Bool
due cron t = (t % 10) == 0

abbrev before : ℕ → Option ℕ
before zero = none
before (suc n) = some (n - n % 10)

abbrev parser : CronParser String
parser = record {
  invalid = λ cron. if str_eq cron "" then some "empty" else none;
  prev = λ cron now. before now;
  next = λ cron now. some (now + (10 - now % 10));
}

before-none : (now t : ℕ) → before now ≡ none → t < now → due "" t ≡ false
before-none zero t e h = absurd (omega arith)
before-none (suc n) t e h = absurd cc

before-due : (now t : ℕ) → before now ≡ some t → due "" t ≡ true
before-due zero t e = absurd cc
before-due (suc n) t e = let eq : n - n % 10 ≡ t = eq_of_some e in ground (arith, eq)

before-lt : (now t : ℕ) → before now ≡ some t → t < now
before-lt zero t e = absurd cc
before-lt (suc n) t e = let eq : n - n % 10 ≡ t = eq_of_some e in omega (arith, eq)

before-last : (now t u : ℕ) → before now ≡ some t → t < u → u < now → due "" u ≡ false
before-last zero t u e h k = absurd cc
before-last (suc n) t u e h k = let eq : n - n % 10 ≡ t = eq_of_some e in ground (arith, eq, h, k)

parser-IsCron : IsCron parser due
parser-IsCron = record {
  none_before = λ cron now e t h. before-none now t e h;
  is_due = λ cron now t e. before-due now t e;
  before = λ cron now t e. before-lt now t e;
  last = λ cron now t u e h k. before-last now t u e h k;
}

abbrev schedule : String → Option Bool → Schedule ℕ
schedule name enabled = record {
  name = name;
  cron = "*/10";
  hook_name = "build_prompt";
  payload = none;
  enabled = enabled;
  description = none;
}

abbrev impl : HookImpl (HookValue ℕ) String
impl ctx = record { at = 0; outcome = throws "broken" }

abbrev hooks : HookRegistry (HookValue ℕ) String
hooks = Hooks.register "build_prompt" impl none none (new_registry none)

abbrev add : Schedule ℕ → Scheduler ℕ String → Scheduler ℕ String
add s t = elim (register parser s t) [ inl err ↦ t | inr next ↦ next ]

abbrev scheduler : Scheduler ℕ String
scheduler =
    start 15 (add (schedule "off" (some false)) (add (schedule "on" none) (new_scheduler none)))

abbrev on_fire : FiredSchedule ℕ → Option String
on_fire event = none

tick-IsTicked_example :
    IsTicked parser due parser-IsCron hooks on_fire 21 scheduler
      (tick parser hooks on_fire 21 scheduler)
tick-IsTicked_example = tick-IsTicked parser due parser-IsCron hooks on_fire 21 scheduler

fires_once : length (tick parser hooks on_fire 21 scheduler).fires ≡ 1
unfolding tick tick_each start register lookup put fire Run.execute Run.broadcast Hooks.register
    sort
fires_once = refl

not_due : (tick parser hooks on_fire 20 scheduler).fires ≡ []
unfolding tick tick_each start register lookup put
not_due = refl

next_two : next_fires parser "*/10" 2 15 ≡ some (20 ∷ 30 ∷ [])
unfolding next_fires
next_two = refl
