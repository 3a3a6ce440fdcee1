-- ===== src/Tape/Latest.antt =====
-- packages/core/src/session/checkpoint.ts: the checkpoint saved last is the one that is loaded.
use phus.Prelude.{
  ℕ, ◌≤◌, String, ◌≡◌, refl, ap, ◌∙◌, Bool, true, false, Option, none, some, List, [], ◌∷◌, ◌++◌,
  map, arith, eq_refl, le→ltb, filter, filter-append, All,
}
use text.Mathlib.Text.{◌==◌ as str_eq}
use phus.Prelude.{All-mono}
use phus.Prelude.Json.{Value, reread_item}
use phus.Prelude.Sort.{IsWeakOrder, sort}
use phus.Prelude.Sort.Stable.{filter-sort_swap, sort-append_last}
use phus.Tape.{
  CheckpointEntry, TapeEntry, turn, anchor, checkpoint, other, TapeRow, Tape, append, in_session,
  older_row, replay_rows, replay, parsed_entries, checkpoint_entry,
}
use phus.Tape.Checkpoint.{checkpoint_ts, save_checkpoint, latest_checkpoint, load_latest_checkpoint}

abbrev is_saved : Option TapeEntry → Bool
is_saved (some (checkpoint c)) = true
is_saved entry = false

-- A row whose payload is read as a checkpoint.
abbrev pub checkpoint_row : TapeRow → Bool
checkpoint_row row = is_saved row.payload

-- The checkpoints of a session are no later than `ts`.
abbrev pub AreEarlier : String → ℕ → Tape → Type 0
AreEarlier session_id ts tape =
    All (λ (row : TapeRow). row.ts ≤ ts)
      (filter checkpoint_row (filter (in_session session_id) tape))

-- Malformed rows and entries of other kinds do not count.
latest-filter :
    (rows : List TapeRow)
    → latest_checkpoint (parsed_entries rows)
      ≡ latest_checkpoint (parsed_entries (filter checkpoint_row rows))
latest-filter [] = refl
latest-filter (row ∷ rows) = latest_step row.payload row rows refl (latest-filter rows)
  where
    latest_step :
        (entry : Option TapeEntry) (row : TapeRow) (rows : List TapeRow)
        → row.payload ≡ entry
        → latest_checkpoint (parsed_entries rows)
          ≡ latest_checkpoint (parsed_entries (filter checkpoint_row rows))
        → latest_checkpoint (parsed_entries (row ∷ rows))
          ≡ latest_checkpoint (parsed_entries (filter checkpoint_row (row ∷ rows)))
    latest_step none row rows e h = rw e h
    latest_step (some (turn t)) row rows e h = rw e h
    latest_step (some (anchor a)) row rows e h = rw e h
    latest_step (some (other kind id ts json)) row rows e h = rw e h
    latest_step (some (checkpoint c)) row rows e h = rw (e, h) refl

latest-last :
    (entries : List TapeEntry) (c : CheckpointEntry)
    → latest_checkpoint (entries ++ checkpoint c ∷ []) ≡ some c
latest-last [] c = refl
latest-last (turn t ∷ entries) c = latest-last entries c
latest-last (anchor a ∷ entries) c = latest-last entries c
latest-last (other kind id ts json ∷ entries) c = latest-last entries c
latest-last (checkpoint d ∷ entries) c = rw (latest-last entries c) refl

parsed-append :
    (xs ys : List TapeRow) → parsed_entries (xs ++ ys) ≡ parsed_entries xs ++ parsed_entries ys
parsed-append [] ys = refl
parsed-append (x ∷ xs) ys = parsed_step x.payload _ _ _ (parsed-append xs ys)
  where
    parsed_step :
        (entry : Option TapeEntry) (rest before after : List TapeEntry)
        → rest ≡ before ++ after
        → elim entry as (λ o. List TapeEntry) [ none ↦ rest | some e ↦ e ∷ rest ]
          ≡ (elim entry as (λ o. List TapeEntry) [ none ↦ before | some e ↦ e ∷ before ]) ++ after
    parsed_step none rest before after h = h
    parsed_step (some e) rest before after h = ap (λ r. e ∷ r) h

older_row-IsWeakOrder : IsWeakOrder older_row
older_row-IsWeakOrder = record {
  trans = λ a b c h k. ground (arith, h, k);
  negatively = λ a b c h k. ground (arith, h, k);
}

-- The checkpoint rows of the session in the order of `replay`, with a new one that is not earlier.
sorted-last :
    (rows : List TapeRow) (row : TapeRow)
    → checkpoint_row row ≡ true
    → All (λ (r : TapeRow). r.ts ≤ row.ts) (filter checkpoint_row rows)
    → filter checkpoint_row (sort older_row (rows ++ row ∷ []))
      ≡ sort older_row (filter checkpoint_row rows) ++ row ∷ []
sorted-last rows row is earlier =
    filter-sort_swap older_row older_row-IsWeakOrder (λ r. le→ltb r.ts r.ts (omega arith))
      checkpoint_row (rows ++ row ∷ [])
    ∙ ap (sort older_row) (filter-append checkpoint_row rows (row ∷ []) ∙ (rw is refl))
    ∙ sort-append_last older_row row (filter checkpoint_row rows) (
        All-mono _ _ (λ (r : TapeRow) h. le→ltb row.ts r.ts h) (filter checkpoint_row rows) earlier)

replay-session :
    (session_id : String) (tape : Tape)
    → str_eq session_id "" ≡ false
    → replay (some session_id) tape
      ≡ parsed_entries (sort older_row (filter (in_session session_id) tape))
unfolding replay_rows
replay-session session_id tape named = rw named refl

-- In a session with a name, a checkpoint that is saved at a time that is not before those of the
-- session's checkpoints is the latest right after the save, whatever else the tape holds, malformed
-- rows included; its messages are what JSON gives back of those that were saved.
pub load_latest-save :
    (now counter : ℕ) (session_id : String) (messages : List Value) (turn_id : Option String)
    (tape : Tape)
    → str_eq session_id "" ≡ false
    → AreEarlier session_id (checkpoint_ts now counter) tape
    → load_latest_checkpoint session_id
        (save_checkpoint now counter session_id messages turn_id tape).0
      ≡ some (record {
        session_id = session_id;
        turn_id = turn_id;
        messages = map reread_item messages;
        ts = checkpoint_ts now counter;
      })
unfolding save_checkpoint append
load_latest-save now counter session_id messages turn_id tape named earlier =
    let c : CheckpointEntry = record {
      session_id = session_id;
      turn_id = turn_id;
      messages = map reread_item messages;
      ts = checkpoint_ts now counter;
    } in
    let row : TapeRow = record {
      ts = checkpoint_ts now counter;
      session_id = session_id;
      kind = checkpoint_entry;
      payload = some (checkpoint c);
    } in
    let own = filter (in_session session_id) tape in
    let added : filter (in_session session_id) (tape ++ row ∷ []) ≡ own ++ row ∷ [] =
      filter-append (in_session session_id) tape (row ∷ []) ∙ (rw (eq_refl session_id) refl) in
    ap latest_checkpoint (replay-session session_id (tape ++ row ∷ []) named)
    ∙ ap (λ rows. latest_checkpoint (parsed_entries (sort older_row rows))) added
    ∙ latest-filter (sort older_row (own ++ row ∷ []))
    ∙ ap (λ rows. latest_checkpoint (parsed_entries rows)) (sorted-last own row refl earlier)
    ∙ ap latest_checkpoint (parsed-append (sort older_row (filter checkpoint_row own)) (row ∷ []))
    ∙ latest-last (parsed_entries (sort older_row (filter checkpoint_row own))) c
