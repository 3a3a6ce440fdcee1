-- ===== src/SessionStore/Bootstrap.antt =====
-- session-store.ts: bootstrapFromTape, over the table of the tape. The order of texts in
-- ORDER BY session_id is an argument.
use phus.Prelude.{
  ℕ, ◌-◌, min, String, Bool, true, false, Option, none, some, List, [], ◌∷◌, ◌++◌, map,
  if◌then◌else◌, length, any, filter,
}
use text.Mathlib.Text.{◌==◌ as str_eq}
use phus.Prelude.Sort.{sort}
use phus.Tape.{EntryKind, turn_entry, TapeRow, Tape, in_session}
use phus.SessionStore.{
  SessionKind, SessionAddress, opened, SessionRow, Sessions, legacy, normalize_thread_key,
  legacy_session, conflicts,
}
use phus.SessionStore.Methods.{later_of}

pub record LegacyTapeRow : Type 0 where
  pub session_id : String
  pub min_ts : ℕ
  pub max_ts : ℕ
  pub last_turn_ts : Option ℕ

pub record SessionBootstrapResult : Type 0 where
  pub created : ℕ
  pub skipped : ℕ

abbrev pub or_start : Option ℕ → ℕ
or_start none = 0
or_start (some ts) = ts

abbrev pub session_ids : Tape → List String
session_ids [] = []
session_ids (row ∷ tape) =
    let ids = session_ids tape in
    if any (str_eq row.session_id) ids then ids else row.session_id ∷ ids

abbrev pub is_turn : EntryKind → Bool
is_turn turn_entry = true
is_turn kind = false

abbrev pub min_ts_of : List TapeRow → Option ℕ
min_ts_of [] = none
min_ts_of (row ∷ rows) = elim (min_ts_of rows) [
  | none ↦ some row.ts
  | some least ↦ some (min row.ts least)
]

abbrev pub max_ts_of : List TapeRow → Option ℕ
max_ts_of [] = none
max_ts_of (row ∷ rows) = later_of (max_ts_of rows) row.ts

-- One row of `GROUP BY session_id`.
abbrev pub group_of : Tape → String → LegacyTapeRow
group_of tape id =
    let rows = filter (in_session id) tape in
    record {
      session_id = id;
      min_ts = or_start (min_ts_of rows);
      max_ts = or_start (max_ts_of rows);
      last_turn_ts = max_ts_of (filter (λ (row : TapeRow). is_turn row.kind) rows);
    }

abbrev pub legacy_row : LegacyTapeRow → SessionKind × SessionAddress → SessionRow
legacy_row row session = record {
  id = row.session_id;
  kind = session.0;
  status = opened;
  origin_channel = session.1.channel;
  origin_scope = session.1.scope;
  conversation_key = session.1.conversation_key;
  thread_key = normalize_thread_key session.1.thread_key;
  parent_session_id = none;
  title = none;
  tags = [];
  metadata = legacy row.session_id none;
  identity_id = none;
  created_at = row.min_ts;
  updated_at = row.max_ts;
  last_turn_at = row.last_turn_ts;
}

-- `ON CONFLICT DO NOTHING`
abbrev pub insert_new : SessionRow → Sessions → Sessions
insert_new row rows = if conflicts row rows then rows else rows ++ row ∷ []

abbrev pub insert_groups : List LegacyTapeRow → Sessions → Sessions
insert_groups [] rows = rows
insert_groups (group ∷ groups) rows =
    insert_groups groups (insert_new (legacy_row group (legacy_session group.session_id)) rows)

unfoldable pub bootstrap_from_tape :
    (String → String → Bool) → Tape → Sessions → Sessions × SessionBootstrapResult
bootstrap_from_tape text_before tape rows =
    let groups = map (group_of tape) (sort text_before (session_ids tape)) in
    let next = insert_groups groups rows in
    let created = length next - length rows in
    (next, record { created = created; skipped = length groups - created })
