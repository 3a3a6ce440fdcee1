-- ===== src/Compact/Decided.antt =====
-- packages/core/src/session/auto-compact.ts: what a decision promises of the next request.
use phus.Prelude.{
  ℕ, ◌+◌, ◌-◌, ◌*◌, ◌≤◌, ◌<◌, max, ◌≡◌, refl, ap, ◌∙◌, subst, ◌⊎◌, inl, inr, Bool, true, false,
  none, some, List, ◌∷◌, map, arith, ltb, ◌==◌, ltb→lt, lt→ltb, le→ltb, not_ltb→le, not_leb→lt,
  Bool-cases, length, drop,
}
use native.Mathlib.Nat.{mul_comm, mul-le-mul_right}
use phus.Tape.{Tape}
use phus.Compact.{
  ContextTier, ok, near_limit, compact, Fraction, ContextBudgetConfig, ContextSnapshot, budget_of,
  window_of, input_budget_of, ratio_of, at_least, tier_of, build_snapshot, classify_tier,
}
use phus.Compact.Session.{Printing, SummaryMessage, CompactionResult, slice_last, compact_session}
use phus.Compact.Auto.{
  AutoCompactConfig, CompactArgs, Reason, tokens, too_many_messages, summary, recent,
  CompactDecision, cfg_or_default, budget_config, summary_of, decision_of, snapshot_of, decide,
  maybe_compact,
}

-- Below a fraction of at most one.
total-below :
    (budget total : ℕ) (f : Fraction)
    → 0 < budget
    → f.num ≤ f.den
    → at_least (ratio_of total budget) f ≡ false
    → total < budget
total-below budget total f positive small below = elim (Bool-cases (ltb total budget)) [
  | inl t ↦ ltb→lt total budget t
  | inr e ↦
      let reached = not_ltb→le total budget e in
      let less : total * f.den < f.num * budget =
        not_leb→lt (f.num * budget) (total * f.den) (rw (lt→ltb 0 budget positive) at below) in
      let a : f.num * budget ≤ f.den * budget = mul-le-mul_right budget small in
      let b : budget * f.den ≤ total * f.den = mul-le-mul_right f.den reached in
      let c : f.den * budget ≡ budget * f.den = mul_comm f.den budget in
      absurd (omega (arith, less, a, b, c))
]

-- Then the request and the output fit the window.
below-fits :
    (window max_output total : ℕ) (f : Fraction)
    → 0 < window
    → max_output ≤ window
    → f.num ≤ f.den
    → at_least (ratio_of total (budget_of window max_output)) f ≡ false
    → total + max_output ≤ window
unfolding budget_of
below-fits window max_output total f positive fits small below =
    let same : budget_of window max_output ≡ max 1 (window - max_output) =
      rw (le→ltb window max_output fits) refl in
    let less : total < max 1 (window - max_output) =
      total-below (max 1 (window - max_output)) total f (omega arith) small
        (subst (λ b. at_least (ratio_of total b) f ≡ false) same below) in
    omega (arith, less, fits)

pub data Outcome {E : Type 0} (args : CompactArgs E) (cfg : AutoCompactConfig) (window : ℕ)
    (failed : Type 0) (d : CompactDecision) : Type 0 where
  -- A summary takes the place of the messages before the last `keepRecent`.
  trimmed :
      (m : SummaryMessage)
      → d.trimmed_messages
        ≡ some
            (summary m ∷ map recent (drop (length args.messages - cfg.keep_recent) args.messages))
      → Outcome args cfg window failed d
  -- The compaction throws, and the messages stay.
  failed_compact : failed → d.trimmed_messages ≡ none → Outcome args cfg window failed d
  -- Nothing is done where the request and the output fit the window, and there are few messages.
  within :
      d.fired ≡ false
      → length args.messages ≤ cfg.max_messages
      → d.snapshot.total + d.snapshot.max_output_tokens ≤ window
      → Outcome args cfg window failed d

slice_last-drop :
    {A : Type 0} (n : ℕ) (xs : List A) → 0 < n → slice_last n xs ≡ drop (length xs - n) xs
slice_last-drop n xs h = let e : (n == 0) ≡ false = ground (arith, h) in rw e refl

-- A tier below `compact` says that the fraction is not reached.
below-of_tier :
    (window : ℕ) (ratio : Fraction) (cfg : ContextBudgetConfig)
    → ¬ (tier_of (some window) ratio cfg ≡ compact)
    → at_least ratio cfg.max_context_fraction ≡ false
below-of_tier window ratio cfg h = elim (Bool-cases (at_least ratio cfg.max_context_fraction)) [
  | inl t ↦ absurd (h (rw t refl))
  | inr f ↦ f
]

window_of-some : (window : ℕ) → 0 < window → window_of (some window) ≡ some window
window_of-some window h = let e : (window == 0) ≡ false = ground (arith, h) in rw e refl

module _ (printing : Printing) (now : ℕ) {E : Type 0} (args : CompactArgs E)
    (cfg : AutoCompactConfig) (tape : Tape) (window : ℕ) where
  -- The summarizer throws.
  abbrev pub Throws : Type 0
  Throws =
      (err : E) × ((compact_session printing now args.session_id cfg.keep_recent args.summarize_with
          tape).1
        ≡ inl err)

  run-Outcome :
      (reason : Reason) (snapshot : ContextSnapshot) (result : E ⊎ CompactionResult)
      → 0 < cfg.keep_recent
      → (compact_session printing now args.session_id cfg.keep_recent args.summarize_with tape).1
        ≡ result
      → Outcome args cfg window Throws
          (decision_of printing now reason cfg args.messages snapshot result)
  run-Outcome reason snapshot (inl err) keeps e = failed_compact (err, e) refl
  run-Outcome reason snapshot (inr result) keeps e = trimmed (summary_of printing now result) (
      ap (λ ms. some (summary (summary_of printing now result) ∷ map recent ms))
        (slice_last-drop cfg.keep_recent args.messages keeps))

  decide-Outcome :
      (tier : ContextTier) (over : Bool) (snapshot : ContextSnapshot)
      → 0 < cfg.keep_recent
      → (over ≡ false → length args.messages ≤ cfg.max_messages)
      → (¬ (tier ≡ compact) → snapshot.total + snapshot.max_output_tokens ≤ window)
      → Outcome args cfg window Throws (decide printing now tier over args cfg snapshot tape).1
  decide-Outcome compact over snapshot keeps few fits = run-Outcome tokens snapshot _ keeps refl
  decide-Outcome ok true snapshot keeps few fits =
      run-Outcome too_many_messages snapshot _ keeps refl
  decide-Outcome near_limit true snapshot keeps few fits =
      run-Outcome too_many_messages snapshot _ keeps refl
  decide-Outcome ok false snapshot keeps few fits = within refl (few refl) (fits (λ e. cc))
  decide-Outcome near_limit false snapshot keeps few fits = within refl (few refl) (fits (λ e. cc))

  snapshot-fits :
      args.context_window ≡ some window
      → 0 < window
      → (snapshot_of printing now args cfg).max_output_tokens ≤ window
      → cfg.max_context_fraction.num ≤ cfg.max_context_fraction.den
      → ¬ (classify_tier (snapshot_of printing now args cfg) (budget_config cfg) ≡ compact)
      → (snapshot_of printing now args cfg).total
          + (snapshot_of printing now args cfg).max_output_tokens
        ≤ window
  unfolding build_snapshot classify_tier
  snapshot-fits known positive reserve small below =
      let snapshot = snapshot_of printing now args cfg in
      let w : window_of args.context_window ≡ some window =
        ap window_of known ∙ window_of-some window positive in
      below-fits window snapshot.max_output_tokens snapshot.total cfg.max_context_fraction positive
        reserve small
        (below-of_tier window
          (ratio_of snapshot.total (budget_of window snapshot.max_output_tokens))
          (budget_config cfg)
          (λ e. below (
            ap
              (λ o.
                tier_of o (ratio_of snapshot.total (input_budget_of o snapshot.max_output_tokens))
                  (budget_config cfg))
              w
            ∙ e)))

-- With a context window that is known and holds the reserved output, a fraction of at most one, and
-- messages to keep: maybeCompact puts a summary in the place of all but the last keepRecent
-- messages; or the compaction throws and the messages stay; or it does nothing, where there are at
-- most maxMessages and the estimated request fits the window together with the reserved output.
pub maybe_compact-Outcome :
    (printing : Printing) (now : ℕ) {E : Type 0} (args : CompactArgs E) (tape : Tape) (window : ℕ)
    → args.context_window ≡ some window
    → 0 < window
    → 0 < (cfg_or_default args.cfg).keep_recent
    → (snapshot_of printing now args (cfg_or_default args.cfg)).max_output_tokens ≤ window
    → (cfg_or_default args.cfg).max_context_fraction.num
      ≤ (cfg_or_default args.cfg).max_context_fraction.den
    → Outcome args
        (cfg_or_default args.cfg)
        window
        (Throws printing now args (cfg_or_default args.cfg) tape window)
        (maybe_compact printing now args tape).1
unfolding maybe_compact
maybe_compact-Outcome printing now args tape window known positive keeps reserve small =
    let cfg = cfg_or_default args.cfg in
    decide-Outcome printing now args cfg tape window _ _ (snapshot_of printing now args cfg) keeps
      (λ e. not_ltb→le cfg.max_messages (length args.messages) e)
      (λ below. snapshot-fits printing now args cfg tape window known positive reserve small below)
