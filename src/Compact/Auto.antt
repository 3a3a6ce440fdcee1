-- ===== src/Compact/Auto.antt =====
-- packages/core/src/session/auto-compact.ts: maybeCompact, and shouldCompact with its older estimate.
-- The reason is that of the branch; its text is left out.
use phus.Prelude.{
  ℕ, zero, suc, ◌*◌, String, ◌⊎◌, inl, inr, Bool, true, false, Option, none, some, List, ◌∷◌, map,
  ltb, if◌then◌else◌, length,
}
use phus.Tape.{Turn, Tape}
use phus.Compact.{
  Message, ContextTier, ok, near_limit, compact, Fraction, ContextBudgetConfig, ContextSnapshot,
  build_snapshot, classify_tier, window_of, quarter, messages_chars,
}
use phus.Compact.Session.{
  Printing, SummaryMessage, CompactionResult, slice_last, build_summary_message, compact_session,
}

pub record AutoCompactConfig : Type 0 where
  pub max_messages : ℕ
  pub max_context_fraction : Fraction
  pub keep_recent : ℕ
  pub warn_fraction : Fraction
  pub reserve_output_tokens : ℕ

abbrev pub default_auto_compact : AutoCompactConfig
default_auto_compact = record {
  max_messages = 100;
  max_context_fraction = record { num = 3; den = 5 };
  keep_recent = 10;
  warn_fraction = record { num = 1; den = 2 };
  reserve_output_tokens = 0;
}

pub record CompactArgs (E : Type 0) : Type 0 where
  pub session_id : String
  pub messages : List Message
  pub context_window : Option ℕ
  pub cfg : Option AutoCompactConfig
  pub max_output_tokens : Option ℕ
  pub system_prompt : Option String
  pub tools : Option (Option String)
  pub last_reported_input : Option ℕ
  pub summarize_with : Option (List Turn → E ⊎ String)

pub data Reason : Type 0 where
  tokens too_many_messages : Reason

-- An entry of the list of messages after a compaction.
pub data Trimmed : Type 0 where
  summary : SummaryMessage → Trimmed
  recent : Message → Trimmed

pub record CompactDecision : Type 0 where
  pub fired : Bool
  pub tier : ContextTier
  pub reason : Option Reason
  pub summarized : Option ℕ
  pub kept : Option ℕ
  pub anchor_name : Option String
  pub trimmed_messages : Option (List Trimmed)
  pub snapshot : ContextSnapshot

abbrev pub cfg_or_default : Option AutoCompactConfig → AutoCompactConfig
cfg_or_default none = default_auto_compact
cfg_or_default (some cfg) = cfg

-- `cfg.reserveOutputTokens || args.maxOutputTokens || 0`
abbrev pub effective_max_output : ℕ → Option ℕ → ℕ
effective_max_output zero none = 0
effective_max_output zero (some max_output) = max_output
effective_max_output (suc reserve) max_output = suc reserve

abbrev pub budget_config : AutoCompactConfig → ContextBudgetConfig
budget_config cfg = record {
  warn_fraction = cfg.warn_fraction;
  max_context_fraction = cfg.max_context_fraction;
}

abbrev pub not_fired : ContextTier → ContextSnapshot → CompactDecision
not_fired tier snapshot = record {
  fired = false;
  tier = tier;
  reason = none;
  summarized = none;
  kept = none;
  anchor_name = none;
  trimmed_messages = none;
  snapshot = snapshot;
}

module _ (printing : Printing) (now : ℕ) where
  abbrev pub summary_of : CompactionResult → SummaryMessage
  summary_of result = elim result.summary_message [
    | some m ↦ m
    | none ↦ build_summary_message printing now result.summary result.anchor_name result.summarized
  ]

  abbrev pub compacted :
      Reason
      → AutoCompactConfig
      → List Message
      → ContextSnapshot
      → CompactionResult
      → CompactDecision
  compacted reason cfg messages snapshot result = record {
    fired = true;
    tier = compact;
    reason = some reason;
    summarized = some result.summarized;
    kept = some result.kept_recent;
    anchor_name = some result.anchor_name;
    trimmed_messages =
        some (summary (summary_of result) ∷ map recent (slice_last cfg.keep_recent messages));
    snapshot = snapshot;
  }

  -- The `catch` of `runCompact`.
  abbrev pub decision_of :
      {E : Type 0}
      → Reason
      → AutoCompactConfig
      → List Message
      → ContextSnapshot
      → E ⊎ CompactionResult
      → CompactDecision
  decision_of reason cfg messages snapshot (inl err) = not_fired compact snapshot
  decision_of reason cfg messages snapshot (inr result) =
      compacted reason cfg messages snapshot result

  module _ {E : Type 0} where
    abbrev pub run_compact :
        Reason → CompactArgs E → AutoCompactConfig → ContextSnapshot → Tape → Tape × CompactDecision
    run_compact reason args cfg snapshot tape =
        let (next, result) =
          compact_session printing now args.session_id cfg.keep_recent args.summarize_with tape in
        (next, decision_of reason cfg args.messages snapshot result)

    abbrev pub snapshot_of : CompactArgs E → AutoCompactConfig → ContextSnapshot
    snapshot_of args cfg = build_snapshot (record {
      context_window = args.context_window;
      max_output_tokens =
          some (effective_max_output cfg.reserve_output_tokens args.max_output_tokens);
      system_prompt = args.system_prompt;
      tools = args.tools;
      messages = args.messages;
      reported_input = args.last_reported_input;
    })

    abbrev pub decide :
        ContextTier
        → Bool
        → CompactArgs E
        → AutoCompactConfig
        → ContextSnapshot
        → Tape
        → Tape × CompactDecision
    decide compact over args cfg snapshot tape = run_compact tokens args cfg snapshot tape
    decide ok true args cfg snapshot tape = run_compact too_many_messages args cfg snapshot tape
    decide near_limit true args cfg snapshot tape =
        run_compact too_many_messages args cfg snapshot tape
    decide ok false args cfg snapshot tape = (tape, not_fired ok snapshot)
    decide near_limit false args cfg snapshot tape = (tape, not_fired near_limit snapshot)

    unfoldable pub maybe_compact : CompactArgs E → Tape → Tape × CompactDecision
    maybe_compact args tape =
        let cfg = cfg_or_default args.cfg in
        let snapshot = snapshot_of args cfg in
        decide (classify_tier snapshot (budget_config cfg))
          (ltb cfg.max_messages (length args.messages)) args cfg snapshot tape

-- `estimateTokens` counts as `estimateMessagesTokens` does.
abbrev pub estimate_tokens : List Message → ℕ
estimate_tokens messages = quarter (messages_chars messages)

abbrev pub over_fraction : Option ℕ → ℕ → Fraction → Option Reason
over_fraction none count fraction = none
over_fraction (some window) count fraction =
    if ltb (fraction.num * window) (count * fraction.den) then some tokens else none

unfoldable pub should_compact : List Message → Option ℕ → AutoCompactConfig → Option Reason
should_compact messages context_window cfg =
    if ltb cfg.max_messages (length messages)
    then some too_many_messages
    else over_fraction (window_of context_window) (estimate_tokens messages)
        cfg.max_context_fraction
