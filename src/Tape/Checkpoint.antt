-- ===== src/Tape/Checkpoint.antt =====
-- packages/core/src/session/checkpoint.ts: checkpoints on the tape. The counter of the module is passed
-- on.
use phus.Prelude.{ℕ, suc, ◌+◌, ◌*◌, String, Bool, Option, none, some, List, [], ◌∷◌, ltb}
use Prim.Native.Nat.{◌%◌}
use phus.Prelude.Json.{Value}
use phus.Prelude.Sort.{sort}
use phus.Tape.{CheckpointEntry, TapeEntry, checkpoint, Tape, append, replay}

-- `Date.now() * 1000 + (checkpointCounter++ % 1000)`
abbrev pub checkpoint_ts : ℕ → ℕ → ℕ
checkpoint_ts now counter = now * 1000 + counter % 1000

-- With the counter that is left.
unfoldable pub save_checkpoint : ℕ → ℕ → String → List Value → Option String → Tape → Tape × ℕ
save_checkpoint now counter session_id messages turn_id tape =
    let entry : CheckpointEntry = record {
      session_id = session_id;
      turn_id = turn_id;
      messages = messages;
      ts = checkpoint_ts now counter;
    } in
    (append now (checkpoint entry) tape, suc counter)

abbrev pub latest_checkpoint : List TapeEntry → Option CheckpointEntry
latest_checkpoint [] = none
latest_checkpoint (checkpoint c ∷ entries) = elim (latest_checkpoint entries) [
  | none ↦ some c
  | some d ↦ some d
]
latest_checkpoint (entry ∷ entries) = latest_checkpoint entries

abbrev pub load_latest_checkpoint : String → Tape → Option CheckpointEntry
load_latest_checkpoint session_id tape = latest_checkpoint (replay (some session_id) tape)

abbrev pub checkpoints_in : List TapeEntry → List CheckpointEntry
checkpoints_in [] = []
checkpoints_in (checkpoint c ∷ entries) = c ∷ checkpoints_in entries
checkpoints_in (entry ∷ entries) = checkpoints_in entries

abbrev pub newer_checkpoint : CheckpointEntry → CheckpointEntry → Bool
newer_checkpoint a b = ltb b.ts a.ts

abbrev pub list_checkpoints : String → Tape → List CheckpointEntry
list_checkpoints session_id tape =
    sort newer_checkpoint (checkpoints_in (replay (some session_id) tape))
