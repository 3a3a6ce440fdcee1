-- ===== src/Compact/Tests.antt =====
-- Runs of the compaction, and its theorem at concrete requests.
use phus.Prelude.{◌≤◌, String, ◌≡◌, refl, inr, true, none, some, List, [], ◌∷◌, arith}
use phus.Prelude.Sort.{sort, insert}
use phus.Tape.{Turn, turn, Tape, append, replay_rows}
use phus.Compact.{Message, whole, message, build_snapshot, classify_tier, budget_of}
use phus.Compact.Session.{Printing, compact_session}
use phus.Compact.Auto.{
  AutoCompactConfig, CompactArgs, cfg_or_default, snapshot_of, maybe_compact, default_auto_compact,
}
use phus.Compact.Decided.{Outcome, Throws, maybe_compact-Outcome}

abbrev printing : Printing
printing = record { decimal = λ n. "n"; minute = λ n. "t" }

abbrev config : AutoCompactConfig
config = record default_auto_compact { max_messages = 3; keep_recent = 2 }

abbrev text : String → Message
text t = message (whole t)

abbrev args : List Message → CompactArgs String
args messages = record {
  session_id = "s";
  messages = messages;
  context_window = some 1000;
  cfg = some config;
  max_output_tokens = some 200;
  system_prompt = some "You are an agent.";
  tools = none;
  last_reported_input = none;
  summarize_with = none;
}

abbrev messages : List Message
messages = text "one" ∷ text "two" ∷ text "three" ∷ text "four" ∷ text "five" ∷ []

abbrev only_turn : Turn
only_turn = record {
  id = "t1";
  ts = 5;
  session_id = "s";
  inbound = some "hi";
  prompt = "hi";
  model_output = some "done";
  tool_calls = [];
  outbound = [];
  duration_ms = none;
}

abbrev tape : Tape
tape = append 6 (turn only_turn) []

small :
    (cfg_or_default (args messages).cfg).max_context_fraction.num
    ≤ (cfg_or_default (args messages).cfg).max_context_fraction.den
small = omega arith

reserved : (snapshot_of printing 7 (args messages) config).max_output_tokens ≤ 1000
unfolding build_snapshot
reserved = omega arith

maybe_compact-Outcome_example :
    Outcome
      (args messages)
      config
      1000
      (Throws printing 7 (args messages) config tape 1000)
      (maybe_compact printing 7 (args messages) tape).1
maybe_compact-Outcome_example =
    maybe_compact-Outcome printing 7 (args messages) tape 1000 refl (omega arith) (omega arith)
      reserved small

-- The whole work of one turn: its first three messages go, and no summary takes their place.
loses_messages :
    ((compact_session printing 7 "s" 2 (args messages).summarize_with tape).1
      ≡ inr (record {
        session_id = "s";
        kept_recent = 1;
        summarized = 0;
        anchor_name = "compact-n";
        summary = "(nothing to compact)";
        summary_message = none;
      }))
    × ((maybe_compact printing 7 (args messages) tape).1.fired ≡ true)
unfolding maybe_compact compact_session build_snapshot classify_tier append replay_rows sort insert
    budget_of
loses_messages = (refl, refl)
