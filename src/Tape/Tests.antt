-- ===== src/Tape/Tests.antt =====
-- Runs of the tape, and its theorem at a concrete tape.
use phus.Prelude.{◌≡◌, refl, Option, none, some, List, [], ◌∷◌, map, arith}
use phus.Prelude.Json.{Value, undefined, null, number, object, no_properties, reread, reread_item}
use phus.Prelude.Sort.{sort, insert}
use phus.Tape.{CheckpointEntry, other, tool_call, Tape, append, replay_rows, prune_checkpoints}
use phus.Tape.Checkpoint.{checkpoint_ts, save_checkpoint, load_latest_checkpoint}
use phus.Tape.Latest.{AreEarlier, load_latest-save}

abbrev tape : Tape
tape =
    append 5 (other tool_call "s" 90000 (object no_properties))
      (save_checkpoint 5 4 "s" (number 1 ∷ []) none
        (save_checkpoint 9 2 "other" (number 2 ∷ []) none []).0).0

tape-AreEarlier : AreEarlier "s" (checkpoint_ts 5 6) tape
unfolding append save_checkpoint
tape-AreEarlier = (omega arith, tt)

load_latest-save_example :
    load_latest_checkpoint "s"
      (save_checkpoint 5 6 "s" (number 3 ∷ undefined ∷ []) (some "t") tape).0
    ≡ some (record {
      session_id = "s";
      turn_id = some "t";
      messages = map reread_item (number 3 ∷ undefined ∷ []);
      ts = checkpoint_ts 5 6;
    })
load_latest-save_example =
    load_latest-save 5 6 "s" (number 3 ∷ undefined ∷ []) (some "t") tape refl tape-AreEarlier

-- An array has no `undefined` in JSON.
reads_back : map reread_item (number 3 ∷ undefined ∷ []) ≡ number 3 ∷ null ∷ []
unfolding reread
reads_back = refl

-- Two checkpoints of one millisecond, where the counter goes from 999 to 1000: the older one is
-- loaded.
abbrev wrapped : Tape
wrapped =
    (save_checkpoint 5 1000 "s" (number 2 ∷ []) none
      (save_checkpoint 5 999 "s" (number 1 ∷ []) none []).0).0

abbrev messages_of : Option CheckpointEntry → List Value
messages_of none = []
messages_of (some c) = c.messages

loads_older : messages_of (load_latest_checkpoint "s" wrapped) ≡ number 1 ∷ []
unfolding save_checkpoint append replay_rows sort insert reread
loads_older = refl

-- Of two checkpoints with one time, pruning to one deletes both.
abbrev twins : Tape
twins =
    (save_checkpoint 5 1007 "s" (number 2 ∷ []) none
      (save_checkpoint 5 7 "s" (number 1 ∷ []) none []).0).0

prunes_both : prune_checkpoints "s" 1 twins ≡ ([], 2)
unfolding prune_checkpoints save_checkpoint append sort insert
prunes_both = refl
