-- ===== src/SessionStore/Tests.antt =====
-- Runs of the store of sessions, and its theorem at a concrete table.
use phus.Prelude.{◌≡◌, refl, false, none, some, [], ◌∷◌, any, map}
use phus.Prelude.Sort.{sort, insert}
use phus.Prelude.Json.{object, no_properties}
use phus.Tape.{Tape, append, other, tool_call}
use phus.Tape.Checkpoint.{save_checkpoint}
use phus.SessionStore.Bootstrap.{bootstrap_from_tape}
use phus.SessionStore.{
  SessionRow, conversation, Sessions, empty, legacy_session, create, at_address, legacy_address,
  CreateSessionOptions,
}
use phus.SessionStore.Methods.{compat_address, ensure, record_turn}
use phus.SessionStore.Ensure.{IsEnsured, ensure-IsEnsured}

abbrev options : CreateSessionOptions
options = record {
  address = legacy_address "telegram" "7";
  id = some "first";
  kind = none;
  status = none;
  parent_session_id = none;
  title = some "Chat";
  tags = [];
  metadata = empty;
  created_at = none;
  updated_at = none;
  last_turn_at = none;
}

-- The address of the id "telegram:7" belongs to another session.
abbrev table : Sessions
table = (create "u" 1 options []).0

table-free : any (at_address (compat_address "telegram:7")) table ≡ false
unfolding create
table-free = refl

ensure-IsEnsured_example :
    IsEnsured "telegram:7" table (ensure "telegram:7" 5 table).0 (ensure "telegram:7" 5 table).1
ensure-IsEnsured_example = ensure-IsEnsured "telegram:7" 5 table refl table-free

reads_channel : legacy_session "telegram:7" ≡ (conversation, legacy_address "telegram" "7")
unfolding legacy_session
reads_channel = refl

keeps_later :
    (record_turn "first" 3 4 (record_turn "first" 9 9 table).0).0
    ≡ (record_turn "first" 9 9 table).0
unfolding record_turn create
keeps_later = refl

-- A session with a checkpoint is last updated at a time that no clock shows for long.
abbrev tape : Tape
tape =
    (save_checkpoint 7 3 "cli:me" [] none
      (append 5 (other tool_call "cli:me" 5 (object no_properties)) [])).0

far_future :
    map (λ (row : SessionRow). row.updated_at) (bootstrap_from_tape (λ a b. false) tape []).0
    ≡ 7003 ∷ []
unfolding bootstrap_from_tape save_checkpoint append sort insert
far_future = refl
