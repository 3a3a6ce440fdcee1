-- ===== src/Compact.antt =====
-- packages/core/src/session/context-budget.ts: the size of a request, and its tier. A fraction is a
-- numerator and a denominator; a text is measured in UTF-16 units.
pub mod Session
pub mod Auto
pub mod Decided
mod Tests
use phus.Prelude.{
  ℕ, ◌+◌, ◌-◌, ◌*◌, max, String, Bool, false, Option, none, some, List, [], ◌∷◌, ltb, leb, ◌==◌,
  if◌then◌else◌,
}
use Prim.Native.Nat.{◌/◌}
use phus.Prelude.Text.{codes}

pub data Part : Type 0 where
  plain : String → Part
  with_text : Option String → Part
  odd : Part

pub data Content : Type 0 where
  whole : String → Content
  parts : List Part → Content
  odd : Content

-- What `messages` holds: an object with a `content`, or anything else.
pub data Message : Type 0 where
  message : Content → Message
  not_object : Message

pub data ContextTier : Type 0 where
  ok near_limit compact : ContextTier

pub record Fraction : Type 0 where
  pub num : ℕ
  pub den : ℕ

pub record ContextBudgetConfig : Type 0 where
  pub warn_fraction : Fraction
  pub max_context_fraction : Fraction

abbrev pub default_budget_config : ContextBudgetConfig
default_budget_config = record {
  warn_fraction = record { num = 1; den = 2 };
  max_context_fraction = record { num = 3; den = 5 };
}

-- Tool definitions are their JSON text, `none` where `JSON.stringify` throws.
pub record ContextBudgetInputs : Type 0 where
  pub context_window : Option ℕ
  pub max_output_tokens : Option ℕ
  pub system_prompt : Option String
  pub tools : Option (Option String)
  pub messages : List Message
  pub reported_input : Option ℕ

pub record ContextSnapshot : Type 0 where
  pub context_window : Option ℕ
  pub max_output_tokens : ℕ
  pub input_budget : ℕ
  pub message_tokens : ℕ
  pub system_prompt_tokens : ℕ
  pub tool_tokens : ℕ
  pub reported_input : Option ℕ
  pub total : ℕ
  pub ratio : Fraction
  pub tier : ContextTier

-- `text.length`
abbrev pub utf16_length : List ℕ → ℕ
utf16_length [] = 0
utf16_length (c ∷ text) = (if ltb c 65536 then 1 else 2) + utf16_length text

-- `Math.ceil(chars / 4)`
abbrev pub quarter : ℕ → ℕ
quarter chars = (chars + 3) / 4

abbrev pub estimate_text_tokens : Option String → ℕ
estimate_text_tokens none = 0
estimate_text_tokens (some text) = quarter (utf16_length (codes text))

abbrev pub part_chars : Part → ℕ
part_chars (plain text) = utf16_length (codes text)
part_chars (with_text none) = 0
part_chars (with_text (some text)) = utf16_length (codes text)
part_chars Part.odd = 0

abbrev pub parts_chars : List Part → ℕ
parts_chars [] = 0
parts_chars (part ∷ rest) = part_chars part + parts_chars rest

abbrev pub content_chars : Content → ℕ
content_chars (whole text) = utf16_length (codes text)
content_chars (parts ps) = parts_chars ps
content_chars Content.odd = 0

abbrev pub messages_chars : List Message → ℕ
messages_chars [] = 0
messages_chars (message content ∷ rest) = content_chars content + 50 + messages_chars rest
messages_chars (not_object ∷ rest) = messages_chars rest

abbrev pub estimate_messages_tokens : List Message → ℕ
estimate_messages_tokens messages = quarter (messages_chars messages)

abbrev pub estimate_tools_tokens : Option (Option String) → ℕ
estimate_tools_tokens none = 0
estimate_tools_tokens (some json) = estimate_text_tokens json

-- `maxOutputTokens` against a context window that is there.
unfoldable pub budget_of : ℕ → ℕ → ℕ
budget_of window max_output =
    if ltb window max_output then max 1 (window / 2) else max 1 (window - max_output)

-- `contextWindow && contextWindow > 0`
abbrev pub window_of : Option ℕ → Option ℕ
window_of none = none
window_of (some window) = if window == 0 then none else some window

abbrev pub input_budget_of : Option ℕ → ℕ → ℕ
input_budget_of none max_output = 0
input_budget_of (some window) max_output = budget_of window max_output

abbrev pub or_zero : Option ℕ → ℕ
or_zero none = 0
or_zero (some n) = n

abbrev pub or_sum : Option ℕ → ℕ → ℕ
or_sum none sum = sum
or_sum (some reported) sum = reported

abbrev pub ratio_of : ℕ → ℕ → Fraction
ratio_of total budget =
    if ltb 0 budget then record { num = total; den = budget } else record { num = 0; den = 1 }

-- `ratio >= fraction`
abbrev pub at_least : Fraction → Fraction → Bool
at_least ratio fraction = leb (fraction.num * ratio.den) (ratio.num * fraction.den)

abbrev pub tier_of : Option ℕ → Fraction → ContextBudgetConfig → ContextTier
tier_of none ratio cfg = ok
tier_of (some window) ratio cfg =
    if at_least ratio cfg.max_context_fraction
    then compact
    else (if at_least ratio cfg.warn_fraction then near_limit else ok)

-- Whether `logger.warn` is called: "context.max_output_exceeds_window".
abbrev pub exceeds_window : Option ℕ → ℕ → Bool
exceeds_window none max_output = false
exceeds_window (some window) max_output = ltb window max_output

unfoldable pub build_snapshot : ContextBudgetInputs → ContextSnapshot
build_snapshot inputs =
    let max_output = or_zero inputs.max_output_tokens in
    let system_prompt_tokens = estimate_text_tokens inputs.system_prompt in
    let tool_tokens = estimate_tools_tokens inputs.tools in
    let message_tokens = estimate_messages_tokens inputs.messages in
    let window = window_of inputs.context_window in
    let budget = input_budget_of window max_output in
    let total =
      or_sum inputs.reported_input (system_prompt_tokens + tool_tokens + message_tokens) in
    record {
      context_window = inputs.context_window;
      max_output_tokens = max_output;
      input_budget = budget;
      message_tokens = message_tokens;
      system_prompt_tokens = system_prompt_tokens;
      tool_tokens = tool_tokens;
      reported_input = inputs.reported_input;
      total = total;
      ratio = ratio_of total budget;
      tier = tier_of window (ratio_of total budget) default_budget_config;
    }

unfoldable pub classify_tier : ContextSnapshot → ContextBudgetConfig → ContextTier
classify_tier snapshot cfg = tier_of (window_of snapshot.context_window) snapshot.ratio cfg
