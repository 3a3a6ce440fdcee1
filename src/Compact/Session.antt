-- ===== src/Compact/Session.antt =====
-- packages/core/src/session/compaction.ts: compactSession. A call reads the clock once; how a number
-- and a date are printed, which the language does, are arguments.
use phus.Prelude.{
  ℕ, zero, suc, ◌-◌, String, ◌⊎◌, inl, inr, Option, none, some, List, [], ◌∷◌, map, leb, ◌==◌,
  if◌then◌else◌, length, take, drop,
}
use Prim.Native.Char.{code}
use Prim.Native.String.{◌++◌ as concat}
use phus.Tape.{Turn, compaction, TapeEntry, anchor, Tape, append, replay, turns_in}

-- `String(n)` of a number, and the first 16 characters of `toISOString` of a date.
pub record Printing : Type 0 where
  pub decimal : ℕ → String
  pub minute : ℕ → String

pub record SummaryMessage : Type 0 where
  pub content : String
  pub timestamp : ℕ

pub record CompactionResult : Type 0 where
  pub session_id : String
  pub kept_recent : ℕ
  pub summarized : ℕ
  pub anchor_name : String
  pub summary : String
  pub summary_message : Option SummaryMessage

-- `xs.slice(-n)`, which is all of `xs` for zero.
abbrev pub slice_last : {A : Type 0} → ℕ → List A → List A
slice_last n xs = if n == 0 then xs else drop (length xs - n) xs

abbrev pub concat_all : List String → String
concat_all [] = ""
concat_all (text ∷ texts) = concat text (concat_all texts)

abbrev pub join : String → List String → String
join separator [] = ""
join separator (text ∷ []) = text
join separator (text ∷ (next ∷ texts)) =
    concat text (concat separator (join separator (next ∷ texts)))

-- `(text ?? "").slice(0, n).replace(/\n/g, " ")`, in code points.
abbrev pub cut : ℕ → String → String
cut zero text = ""
cut (suc n) String.[] = ""
cut (suc n) (String.◌∷◌ c text) =
    let rest = cut n text in if code c == 10 then concat " " rest else String.◌∷◌ c rest

abbrev pub or_empty_text : Option String → String
or_empty_text none = ""
or_empty_text (some text) = text

module _ (printing : Printing) where
  abbrev pub build_summary_message : ℕ → String → String → ℕ → SummaryMessage
  build_summary_message now summary anchor_name count = record {
    content = concat_all (
        "[Compaction summary — "
        ∷ anchor_name
        ∷ "; "
        ∷ printing.decimal count
        ∷ " older turn(s) collapsed]\n"
        ∷ summary
        ∷ "\n[End of compaction summary. The conversation continues with the recent turns below.]"
        ∷ []);
    timestamp = now;
  }

  abbrev pub summary_line : Turn → String
  summary_line t = concat_all (
      "["
      ∷ printing.minute t.ts
      ∷ "] U: "
      ∷ cut 120 (or_empty_text t.inbound)
      ∷ " | P: "
      ∷ cut 120 (or_empty_text t.model_output)
      ∷ [])

  unfoldable pub simple_summarize : List Turn → String
  simple_summarize turns = concat_all (
      "Compacted "
      ∷ printing.decimal (length turns)
      ∷ " turn(s):\n\n"
      ∷ join "\n" (map (λ t. summary_line t) turns)
      ∷ [])

  abbrev pub anchor_name_at : ℕ → String
  anchor_name_at now = concat "compact-" (printing.decimal now)

  abbrev pub nothing_result : ℕ → String → ℕ → CompactionResult
  nothing_result now session_id count = record {
    session_id = session_id;
    kept_recent = count;
    summarized = 0;
    anchor_name = anchor_name_at now;
    summary = "(nothing to compact)";
    summary_message = none;
  }

  abbrev pub compaction_anchor : ℕ → String → String → List Turn → List Turn → TapeEntry
  compaction_anchor now session_id summary old kept = anchor (record {
    session_id = session_id;
    name = anchor_name_at now;
    state = compaction (record {
      summarized_count = length old;
      kept_recent_count = length kept;
      summary = summary;
      turn_ids = map (λ (t : Turn). t.id) old;
    });
    ts = now;
  })

  abbrev pub summarized_result : ℕ → String → String → List Turn → List Turn → CompactionResult
  summarized_result now session_id summary old kept = record {
    session_id = session_id;
    kept_recent = length kept;
    summarized = length old;
    anchor_name = anchor_name_at now;
    summary = summary;
    summary_message = some (build_summary_message now summary (anchor_name_at now) (length old));
  }

  module _ {E : Type 0} where
    -- `summarizeWith`, which may throw, or the summary without a model.
    abbrev pub summarize : Option (List Turn → E ⊎ String) → List Turn → E ⊎ String
    summarize none turns = inr (simple_summarize turns)
    summarize (some with_model) turns = with_model turns

    abbrev pub compact_turns :
        ℕ
        → String
        → ℕ
        → Option (List Turn → E ⊎ String)
        → List Turn
        → Tape
        → Tape × (E ⊎ CompactionResult)
    compact_turns now session_id keep_recent summarize_with turns tape =
        if leb (length turns) keep_recent
        then (tape, inr (nothing_result now session_id (length turns)))
        else (let old = take (length turns - keep_recent) turns in
            let kept = slice_last keep_recent turns in
            elim (summarize summarize_with old) [
              | inl err ↦ (tape, inl err)
              | inr summary ↦ (
                append now (compaction_anchor now session_id summary old kept) tape,
                inr (summarized_result now session_id summary old kept),
              )
            ])

    unfoldable pub compact_session :
        ℕ → String → ℕ → Option (List Turn → E ⊎ String) → Tape → Tape × (E ⊎ CompactionResult)
    compact_session now session_id keep_recent summarize_with tape =
        compact_turns now session_id keep_recent summarize_with
          (turns_in (replay (some session_id) tape)) tape
