-- ===== src/Fuse.antt =====
-- packages/runtime/src/infra/llm-fuse.ts: the process-wide guard in front of every LLM request.
-- `this.now()` and the configuration are arguments of each method; a method that mutates the
-- fuse returns the new one, and `check`, which throws, returns the reason that it throws.
-- Logging and the texts of the errors are left out. Times are milliseconds.
pub mod Window
pub mod Trace
pub mod Budget
pub mod Hours
pub mod Billing
mod Tests
use phus.Prelude.{
  ℕ, ◌+◌, String, Bool, true, false, ◌&&◌, ◌||◌, Option, none, some, List, [], ◌∷◌, ◌++◌, map,
  length, filter, ltb, leb, if◌then◌else◌,
}
use phus.Prelude.Text.{codes, lower, contains}

pub record RobustnessConfig : Type 0 where
  pub llm_timeout_ms : ℕ
  pub turn_timeout_ms : ℕ
  pub subagent_timeout_ms : ℕ
  pub plan_timeout_ms : ℕ
  pub plan_max_steps : ℕ
  pub llm_calls_per_turn : ℕ
  pub llm_calls_per_hour : ℕ
  pub billing_fuse_ms : ℕ

abbrev pub default_robustness : RobustnessConfig
default_robustness = record {
  llm_timeout_ms = 120000;
  turn_timeout_ms = 600000;
  subagent_timeout_ms = 300000;
  plan_timeout_ms = 900000;
  plan_max_steps = 25;
  llm_calls_per_turn = 50;
  llm_calls_per_hour = 500;
  billing_fuse_ms = 600000;
}

pub data FuseTripReason : Type 0 where
  billing turn_budget hour_budget : FuseTripReason

pub record LlmFuse : Type 0 where
  pub billing_open_until : ℕ
  pub billing_reason : String
  pub calls_this_turn : ℕ
  pub hour_window : List ℕ

abbrev pub new_fuse : LlmFuse
new_fuse = record {
  billing_open_until = 0;
  billing_reason = "";
  calls_this_turn = 0;
  hour_window = [];
}

abbrev pub hour_ms : ℕ
hour_ms = 3600000

-- `t < now - 3_600_000`, where the difference may be negative.
abbrev pub is_stale : ℕ → ℕ → Bool
is_stale now t = ltb (t + hour_ms) now

pub reset_turn : LlmFuse → LlmFuse
reset_turn fuse = record fuse { calls_this_turn = 0 }

-- The loop of `check` that shifts stale calls out of the window.
pub shift_stale : ℕ → List ℕ → List ℕ
shift_stale now [] = []
shift_stale now (t ∷ ts) = let rest = shift_stale now ts in if is_stale now t then rest else t ∷ ts

-- The state when a call has been counted.
pub count_call : ℕ → LlmFuse → LlmFuse
count_call now fuse = record fuse {
  calls_this_turn = fuse.calls_this_turn + 1;
  hour_window = shift_stale now (fuse.hour_window ++ now ∷ []);
}

abbrev over_budget : RobustnessConfig → LlmFuse → Option FuseTripReason
over_budget cfg fuse =
    if ltb 0 cfg.llm_calls_per_turn && ltb cfg.llm_calls_per_turn fuse.calls_this_turn
    then some turn_budget
    else if ltb 0 cfg.llm_calls_per_hour && ltb cfg.llm_calls_per_hour (length fuse.hour_window)
    then some hour_budget
    else none

-- `none`: the request is sent.
pub check : RobustnessConfig → ℕ → LlmFuse → LlmFuse × Option FuseTripReason
check cfg now fuse =
    if ltb now fuse.billing_open_until
    then (fuse, some billing)
    else let counted = count_call now fuse in (counted, over_budget cfg counted)

-- `BILLING_PATTERN.test(msg)`, alternative by alternative.
pub billing_pattern : List ℕ → Bool
unfolding contains
billing_pattern msg =
    let text = map lower msg in
    contains (codes "402") text
    || contains (codes "insufficientbalance") text
    || contains (codes "insufficient balance") text
    || contains (codes "insufficient_balance") text
    || contains (codes "quota exceeded") text
    || contains (codes "billing") text
    || contains (codes "余额不足") text
    || contains (codes "欠费") text

-- `now` and `now'` are the two readings of the clock. Any other message is at most logged.
pub report : RobustnessConfig → ℕ → ℕ → String → LlmFuse → LlmFuse
unfolding billing_pattern
report cfg now now' msg fuse =
    if billing_pattern (codes msg) && leb fuse.billing_open_until now
    then record fuse {
      billing_open_until = now' + cfg.billing_fuse_ms;
      billing_reason = "insufficient balance / billing";
    }
    else fuse

pub is_open : ℕ → LlmFuse → Bool
is_open now fuse = ltb now fuse.billing_open_until

pub record Status : Type 0 where
  pub is_open : Bool
  pub reason : Option String
  pub until_ms : Option ℕ
  pub calls_this_turn : ℕ
  pub calls_this_hour : ℕ

abbrev pub is_recent : ℕ → ℕ → Bool
is_recent now t = leb now (t + hour_ms)

pub status : ℕ → LlmFuse → Status
status now fuse =
    let opened = ltb now fuse.billing_open_until in
    record {
      is_open = opened;
      reason = if opened then some fuse.billing_reason else none;
      until_ms = if opened then some fuse.billing_open_until else none;
      calls_this_turn = fuse.calls_this_turn;
      calls_this_hour = length (filter (is_recent now) fuse.hour_window);
    }
