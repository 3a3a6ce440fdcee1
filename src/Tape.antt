-- ===== src/Tape.antt =====
-- packages/core/src/session/tape.ts: Tape, its table as a list of rows in the order of their ids. The
-- payload of a row is what JSON.parse makes of its text: `append` writes an entry after the way
-- through JSON, on which the values that the program passes on can change, and a text that JSON.parse
-- refuses is `none`. Types in packages/core/src/types/tape.
pub mod Checkpoint
pub mod Latest
mod Tests
use phus.Prelude.{
  ℕ, suc, ◌+◌, ◌-◌, String, ◌⊎◌, inl, inr, Bool, true, false, not, ◌&&◌, Option, none, some, List,
  [], ◌∷◌, ◌++◌, map, ltb, leb, ◌==◌, if◌then◌else◌, length, drop, filter,
}
use text.Mathlib.Text.{◌==◌ as str_eq}
use phus.Prelude.Json.{Value, reread_item, reread_field}
use phus.Prelude.Maps.{lookup, put}
use phus.Prelude.Sort.{sort, first?}

pub record Turn : Type 0 where
  pub id : String
  pub ts : ℕ
  pub session_id : String
  pub inbound : Option String
  pub prompt : String
  pub model_output : Option String
  pub tool_calls : List Value
  pub outbound : List Value
  pub duration_ms : Option ℕ

pub record CheckpointEntry : Type 0 where
  pub session_id : String
  pub turn_id : Option String
  pub messages : List Value
  pub ts : ℕ

-- The state of an anchor that compaction writes.
pub record CompactionState : Type 0 where
  pub summarized_count : ℕ
  pub kept_recent_count : ℕ
  pub summary : String
  pub turn_ids : List String

pub data AnchorState : Type 0 where
  compaction : CompactionState → AnchorState
  custom : Value → AnchorState

pub record AnchorEntry : Type 0 where
  pub session_id : String
  pub name : String
  pub state : AnchorState
  pub ts : ℕ

-- The kinds of entries of which the tape reads no more than their session and time.
pub data OtherKind : Type 0 where
  tool_call tool_result error memory_write plan : OtherKind

pub data TapeEntry : Type 0 where
  turn : Turn → TapeEntry
  anchor : AnchorEntry → TapeEntry
  checkpoint : CheckpointEntry → TapeEntry
  -- With the other fields as an object.
  other : OtherKind → String → ℕ → Value → TapeEntry

-- `entry.kind`
pub data EntryKind : Type 0 where
  turn_entry anchor_entry checkpoint_entry : EntryKind
  other_entry : OtherKind → EntryKind

pub record TapeRow : Type 0 where
  pub ts : ℕ
  pub session_id : String
  pub kind : EntryKind
  pub payload : Option TapeEntry

pub record TapeAnchorRef : Type 0 where
  pub name : String
  pub state : AnchorState
  pub ts : ℕ

pub record TapeStats : Type 0 where
  pub total_entries : ℕ
  pub sessions : List (String × ℕ)

abbrev pub Tape : Type 0
Tape = List TapeRow

abbrev pub plus_one : Option ℕ → ℕ
plus_one none = 1
plus_one (some n) = suc n

-- ORDER BY ts DESC, id DESC
abbrev pub reverse : List ℕ → List ℕ
reverse [] = []
reverse (x ∷ xs) = reverse xs ++ x ∷ []

-- `"ts" in entry ? entry.ts : Date.now()`
abbrev pub ts_of : ℕ → TapeEntry → ℕ
ts_of now (turn t) = now
ts_of now (anchor a) = a.ts
ts_of now (checkpoint c) = c.ts
ts_of now (other kind session_id ts json) = ts

abbrev pub session_id_of : TapeEntry → String
session_id_of (turn t) = t.session_id
session_id_of (anchor a) = a.session_id
session_id_of (checkpoint c) = c.session_id
session_id_of (other kind session_id ts json) = session_id

abbrev pub kind_of : TapeEntry → EntryKind
kind_of (turn t) = turn_entry
kind_of (anchor a) = anchor_entry
kind_of (checkpoint c) = checkpoint_entry
kind_of (other kind session_id ts json) = other_entry kind

abbrev pub reread_state : AnchorState → AnchorState
reread_state (compaction state) = compaction state
reread_state (custom v) = custom (reread_field v)

-- JSON.parse of JSON.stringify of an entry.
abbrev pub reread_entry : TapeEntry → TapeEntry
reread_entry (turn t) =
    turn (record t {
      tool_calls = map reread_item t.tool_calls;
      outbound = map reread_item t.outbound;
    })
reread_entry (anchor a) = anchor (record a { state = reread_state a.state })
reread_entry (checkpoint c) = checkpoint (record c { messages = map reread_item c.messages })
reread_entry (other kind session_id ts json) = other kind session_id ts (reread_field json)

abbrev pub new_row : ℕ → TapeEntry → TapeRow
new_row now entry = record {
  ts = ts_of now entry;
  session_id = session_id_of entry;
  kind = kind_of entry;
  payload = some (reread_entry entry);
}

unfoldable pub append : ℕ → TapeEntry → Tape → Tape
append now entry tape = tape ++ new_row now entry ∷ []

abbrev pub in_session : String → TapeRow → Bool
in_session session_id row = str_eq row.session_id session_id

-- ORDER BY ts ASC, id ASC
abbrev pub older_row : TapeRow → TapeRow → Bool
older_row a b = ltb a.ts b.ts

unfoldable pub replay_rows : Option String → Tape → List TapeRow
replay_rows none tape = sort older_row tape
replay_rows (some session_id) tape =
    if str_eq session_id ""
    then sort older_row tape
    else sort older_row (filter (in_session session_id) tape)

-- Malformed rows are skipped.
abbrev pub parsed_entries : List TapeRow → List TapeEntry
parsed_entries [] = []
parsed_entries (row ∷ rows) =
    let rest = parsed_entries rows in elim row.payload [ none ↦ rest | some entry ↦ entry ∷ rest ]

abbrev pub replay : Option String → Tape → List TapeEntry
replay session_id tape = parsed_entries (replay_rows session_id tape)

abbrev pub turns_in : List TapeEntry → List Turn
turns_in [] = []
turns_in (turn t ∷ entries) = t ∷ turns_in entries
turns_in (entry ∷ entries) = turns_in entries

abbrev pub is_checkpoint : EntryKind → Bool
is_checkpoint checkpoint_entry = true
is_checkpoint kind = false

abbrev pub is_anchor : EntryKind → Bool
is_anchor anchor_entry = true
is_anchor kind = false

abbrev pub last? : List TapeRow → Option TapeRow
last? [] = none
last? (row ∷ []) = some row
last? (row ∷ (next ∷ rows)) = last? (next ∷ rows)

abbrev pub anchor_ref : TapeEntry → Option TapeAnchorRef
anchor_ref (anchor a) = some (record { name = a.name; state = a.state; ts = a.ts })
anchor_ref entry = none

-- What JSON.parse throws.
pub data ParseError : Type 0 where
  syntax_error : ParseError

abbrev pub anchor_of_row : Option TapeRow → ParseError ⊎ Option TapeAnchorRef
anchor_of_row none = inr none
anchor_of_row (some row) = elim row.payload [
  | none ↦ inl syntax_error
  | some entry ↦ inr (anchor_ref entry)
]

-- ORDER BY ts DESC, id DESC LIMIT 1. Here a malformed row is not skipped.
unfoldable pub load_anchor : String → Tape → ParseError ⊎ Option TapeAnchorRef
load_anchor session_id tape = anchor_of_row (
    last? (
      sort older_row
        (filter (λ (row : TapeRow). in_session session_id row && is_anchor row.kind) tape)))

abbrev pub session_counts : List TapeRow → List (String × ℕ) → List (String × ℕ)
session_counts [] counts = counts
session_counts (row ∷ rows) counts =
    session_counts rows (put row.session_id (plus_one (lookup row.session_id counts)) counts)

abbrev pub stats : Tape → TapeStats
stats tape = record { total_entries = length tape; sessions = session_counts tape [] }

abbrev pub is_checkpoint_of : String → TapeRow → Bool
is_checkpoint_of session_id row = in_session session_id row && is_checkpoint row.kind

-- `DELETE FROM tape WHERE session_id = ? AND kind = 'checkpoint' AND ts = ?`, for each time.
abbrev pub delete_times : String → List ℕ → Tape → Tape
delete_times session_id [] tape = tape
delete_times session_id (ts ∷ times) tape =
    delete_times session_id times
      (filter (λ row. not (is_checkpoint_of session_id row && (row.ts == ts))) tape)

unfoldable pub prune_checkpoints : String → ℕ → Tape → Tape × ℕ
prune_checkpoints session_id keep tape =
    let rows = reverse (
      map (λ (row : TapeRow). row.ts)
        (sort older_row (filter (is_checkpoint_of session_id) tape))) in
    if leb (length rows) keep
    then (tape, 0)
    else (let rest = delete_times session_id (drop keep rows) tape in
        (rest, length tape - length rest))
